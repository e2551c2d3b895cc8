-- ===== src/Whatsapp/Inbox/Once.antt =====
-- What happens at most once in the inbox of internal/whatsapp: a first contact and its greeting.
use beleevo_whatsapp.Prelude.{
  string_eq, nat_eq, ◌==◌, not, if◌then◌else◌, Bool-cases, and_false, update, count, count-append,
  count-update, any-count, Error, message, permanent, Result, ok, err, ℕ, suc, ◌≤◌, String, ◌≡◌,
  refl, ◌⊎◌, inl, inr, Bool, true, false, ◌&&◌, ◌||◌, Option, none, some, List, [], ◌∷◌, arith,
}
use beleevo_whatsapp.Whatsapp.Inbox.{
  Bytes, Conversation, FirstContactAutoreply, Inbox, FirstContactReplyJob, InboxOutside,
}
use beleevo_whatsapp.Whatsapp.Inbox.Replies.{has_conversation_id}
use beleevo_whatsapp.Whatsapp.Inbox.Autoreply.{
  get_first_contact_autoreply, first_contact_autoreply_media, is_ready,
}
use beleevo_whatsapp.Whatsapp.Inbox.Greetings.{
  is_unclaimed, claimed_at, claim_all, claim_then, greet_with_media, greet_configured,
  send_first_contact_reply_job,
}
use beleevo_whatsapp.Whatsapp.Inbox.Kept.{KeptByUpdate, KeptByInsert}
use beleevo_whatsapp.Whatsapp.Inbox.Inbound.{is_thread}
use beleevo_whatsapp.Whatsapp.Inbox.Greeted.{greet-kept}
use beleevo_whatsapp.Whatsapp.Inbox.Life.{Run, Run-kept}

-- The conversation is there, and its greeting is claimed.
abbrev IsClaimed : FirstContactReplyJob → List Conversation → Type 0
IsClaimed job rows =
    (1 ≤ count (has_conversation_id job.conversation_id) rows) × (count (is_unclaimed job) rows ≡ 0)

count-update-le {ℓ} :
    {A : Type ℓ} (q p : A → Bool) (f : A → A)
    → ((a : A) → q (f a) ≡ true → q a ≡ true)
    → (xs : List A) → count q (update p f xs) ≤ count q xs
count-update-le q p f back [] = omega arith
count-update-le q p f back (x ∷ xs) = elim (Bool-cases (p x)) [
  | inl hit ↦ rw hit (step (q (f x)) (q x) (back x) (count-update-le q p f back xs))
  | inr miss ↦ rw miss (ground (arith, count-update-le q p f back xs))
]
  where
    step :
        (new old : Bool)
        → (new ≡ true → old ≡ true)
        → count q (update p f xs) ≤ count q xs
        → (if new then suc (count q (update p f xs)) else count q (update p f xs))
          ≤ (if old then suc (count q xs) else count q xs)
    step true true h k = omega (arith, k)
    step true false h k = absurd (cc (h refl))
    step false true h k = omega (arith, k)
    step false false h k = k

IsClaimed-KeptByUpdate : (job : FirstContactReplyJob) → KeptByUpdate (IsClaimed job)
IsClaimed-KeptByUpdate job p f rows renewal (present, claimed) = (
  rw (count-update (has_conversation_id job.conversation_id) p f (λ c. rw (renewal.id c) refl) rows)
      present,
  omega (arith, claimed, count-update-le (is_unclaimed job) p f back rows),
)
  where
    back : (c : Conversation) → is_unclaimed job (f c) ≡ true → is_unclaimed job c ≡ true
    back c h = ground (arith, renewal.id c, renewal.shop c, renewal.claim c)

IsClaimed-KeptByInsert : (job : FirstContactReplyJob) → KeptByInsert (IsClaimed job)
IsClaimed-KeptByInsert job new rows free (present, claimed) =
    elim (Bool-cases (new.id == job.conversation_id)) [
      | inl same ↦
          let e : new.id ≡ job.conversation_id = ground (arith, same) in
          let free' = rw e at free in
          absurd
            (omega (arith, present, any-count (has_conversation_id job.conversation_id) rows free'))
      | inr other ↦ (
        rw (count-append (has_conversation_id job.conversation_id) rows (new ∷ []), other)
            (omega (arith, present)),
        rw (count-append (is_unclaimed job) rows (new ∷ []), other) (omega (arith, claimed)),
      )
    ]

-- A claimed conversation is not greeted again.
claimed-unchanged :
    (decode : String → Result FirstContactReplyJob) (o : InboxOutside) (payload : String)
    (job : FirstContactReplyJob) (x : Inbox)
    → decode payload ≡ ok job
    → IsClaimed job x.conversations
    → (send_first_contact_reply_job decode o payload x).0 ≡ x
unfolding send_first_contact_reply_job
claimed-unchanged decode o payload job x decoded (present, claimed) =
    rw decoded (guarded (job.shop_id == 0 || job.conversation_id == 0))
  where
    claiming :
        (cfg : FirstContactAutoreply) (media : Bytes × String) (e : Option Error)
        → (claim_then o job cfg media e x).0 ≡ x
    claiming cfg media (some e) = refl
    claiming cfg media none = rw claimed refl

    with_bytes :
        (cfg : FirstContactAutoreply) (r : Result (Bytes × String))
        → (greet_with_media o job cfg r x).0 ≡ x
    with_bytes cfg (err e) = refl
    with_bytes cfg (ok media) = claiming cfg media o.claim_failure

    ready :
        (cfg : FirstContactAutoreply) (b : Bool)
        → (if not b
            then (x, none)
            else greet_with_media o job cfg (first_contact_autoreply_media o job.shop_id x) x).0
          ≡ x
    ready cfg true = with_bytes cfg (first_contact_autoreply_media o job.shop_id x)
    ready cfg false = refl

    configured : (r : Result FirstContactAutoreply) → (greet_configured o job r x).0 ≡ x
    configured (err e) = refl
    configured (ok cfg) = ready cfg (is_ready cfg)

    guarded :
        (b : Bool)
        → (if b
            then (x, some (permanent (message "first-contact reply: missing shop or conversation")))
            else greet_configured o job (get_first_contact_autoreply o job.shop_id x) x).0
          ≡ x
    guarded true = refl
    guarded false = configured (get_first_contact_autoreply o job.shop_id x)

update-count_zero {ℓ} :
    {A : Type ℓ} (q : A → Bool) (f : A → A)
    → ((a : A) → q a ≡ true → q (f a) ≡ false)
    → (xs : List A) → count q (update q f xs) ≡ 0
update-count_zero q f out [] = refl
update-count_zero q f out (x ∷ xs) = elim (Bool-cases (q x)) [
  | inl hit ↦ rw (hit, out x hit, update-count_zero q f out xs) refl
  | inr miss ↦ rw (miss, miss, update-count_zero q f out xs) refl
]

count-le {ℓ} :
    {A : Type ℓ} (p q : A → Bool)
    → ((a : A) → p a ≡ true → q a ≡ true)
    → (xs : List A) → count p xs ≤ count q xs
count-le p q weaker [] = omega arith
count-le p q weaker (x ∷ xs) = elim (Bool-cases (p x)) [
  | inl hit ↦ rw (hit, weaker x hit) (omega (arith, count-le p q weaker xs))
  | inr miss ↦ rw miss (ground (arith, count-le p q weaker xs))
]

claim_all-IsClaimed :
    (o : InboxOutside) (job : FirstContactReplyJob) (x : Inbox)
    → (count (is_unclaimed job) x.conversations == 0) ≡ false
    → IsClaimed job (claim_all o job x).conversations
claim_all-IsClaimed o job x free = (
  rw
      (count-update (has_conversation_id job.conversation_id) (is_unclaimed job) (claimed_at o.now)
        (λ c. refl) x.conversations)
      (ground (
        arith,
        free,
        count-le (is_unclaimed job) (has_conversation_id job.conversation_id)
            (λ c h. ground (arith, h)) x.conversations,
      )),
  update-count_zero (is_unclaimed job) (claimed_at o.now)
      (λ c h. and_false (c.id == job.conversation_id && c.shop_id == job.shop_id)) x.conversations,
)

-- A job changes nothing, or it claims its conversation.
abbrev Claims : FirstContactReplyJob → (before after : Inbox) → Type 0
Claims job x x' = (x' ≡ x) ⊎ IsClaimed job x'.conversations

job-Claims :
    (decode : String → Result FirstContactReplyJob) (o : InboxOutside) (payload : String)
    (job : FirstContactReplyJob) (x : Inbox)
    → decode payload ≡ ok job
    → Claims job x (send_first_contact_reply_job decode o payload x).0
unfolding send_first_contact_reply_job
job-Claims decode o payload job x decoded =
    rw decoded (guarded (job.shop_id == 0 || job.conversation_id == 0))
  where
    claiming :
        (cfg : FirstContactAutoreply) (media : Bytes × String) (e : Option Error)
        → Claims job x (claim_then o job cfg media e x).0
    claiming cfg media (some e) = inl refl
    claiming cfg media none = elim (Bool-cases (count (is_unclaimed job) x.conversations == 0)) [
      | inl taken ↦ rw taken (inl refl)
      | inr free ↦ rw free (
          inr (
            greet-kept (IsClaimed job) (IsClaimed-KeptByUpdate job) (IsClaimed-KeptByInsert job) o
              job cfg media (claim_all o job x) (claim_all-IsClaimed o job x free)))
    ]

    with_bytes :
        (cfg : FirstContactAutoreply) (r : Result (Bytes × String))
        → Claims job x (greet_with_media o job cfg r x).0
    with_bytes cfg (err e) = inl refl
    with_bytes cfg (ok media) = claiming cfg media o.claim_failure

    ready :
        (cfg : FirstContactAutoreply) (b : Bool)
        → Claims job x
            (if not b
              then (x, none)
              else greet_with_media o job cfg (first_contact_autoreply_media o job.shop_id x) x).0
    ready cfg true = with_bytes cfg (first_contact_autoreply_media o job.shop_id x)
    ready cfg false = inl refl

    configured : (r : Result FirstContactAutoreply) → Claims job x (greet_configured o job r x).0
    configured (err e) = inl refl
    configured (ok cfg) = ready cfg (is_ready cfg)

    guarded :
        (b : Bool)
        → Claims job x
            (if b
              then (
                x,
                some (permanent (message "first-contact reply: missing shop or conversation")),
              )
              else greet_configured o job (get_first_contact_autoreply o job.shop_id x) x).0
    guarded true = inl refl
    guarded false = configured (get_first_contact_autoreply o job.shop_id x)

-- Of two greeting jobs of one conversation, with anything in between (other messages, replies, jobs and
-- statements, in any order, whatever fails), at most one does anything: the first leaves the inbox as
-- it was, or the second leaves it as it finds it, also where the first claimed the conversation and
-- its reply then failed.
pub greeted_once :
    (decode decode' : String → Result FirstContactReplyJob) (o o' : InboxOutside)
    (payload payload' : String) (job : FirstContactReplyJob) (x y : Inbox)
    → decode payload ≡ ok job
    → decode' payload' ≡ ok job
    → Run (send_first_contact_reply_job decode o payload x).0 y
    → ((send_first_contact_reply_job decode o payload x).0 ≡ x)
      ⊎ ((send_first_contact_reply_job decode' o' payload' y).0 ≡ y)
greeted_once decode decode' o o' payload payload' job x y decoded decoded' run =
    elim (job-Claims decode o payload job x decoded) [
      | inl same ↦ inl same
      | inr claimed ↦ inr (
          claimed-unchanged decode' o' payload' job y decoded' (
            Run-kept (IsClaimed job) (IsClaimed-KeptByUpdate job) (IsClaimed-KeptByInsert job)
              claimed run))
    ]

-- The shop has a conversation with the phone.
abbrev pub HasThread : (shop : ℕ) → (phone : String) → List Conversation → Type 0
HasThread shop phone rows = 1 ≤ count (is_thread shop phone) rows

pub HasThread-KeptByUpdate : (shop : ℕ) (phone : String) → KeptByUpdate (HasThread shop phone)
HasThread-KeptByUpdate shop phone p f rows renewal h =
    rw
      (count-update (is_thread shop phone) p f (λ c. rw (renewal.shop c, renewal.phone c) refl)
        rows)
      h

pub HasThread-KeptByInsert : (shop : ℕ) (phone : String) → KeptByInsert (HasThread shop phone)
HasThread-KeptByInsert shop phone new rows free h =
    rw (count-append (is_thread shop phone) rows (new ∷ [])) (omega (arith, h))
