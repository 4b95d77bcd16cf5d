-- ===== src/Spaces/Sessions/Requests.antt =====
-- The request of a sign-in link, and its redemption.
use Prim.Native.String.append
use Prim.Native.String.{◌++◌ as concat}
use Prim.Native.Char.{code}
use gomer.Base.{
  ℕ, ◌+◌, ◌≤◌, ◌≡◌, inl, inr, refl, ap, ◌∙◌, Bool, true, false, not, ◌||◌, ◌&&◌, Bool-cases, Option,
  none, some, is_some, Option-cases, List, [], ◌∷◌, ◌++◌, find, if◌then◌else◌, All, All-imp, map,
  arith, ltb, ◌==◌, find_holds,
}
use gomer.Base.Text.{String, str_eq, eq_iff, cons_inj}
use gomer.Base.Answers.{given, given_inj}
use gomer.Spaces.Rows.{Space, SpaceAuthToken, find_published_by_slug}
use gomer.Spaces.Sessions.{
  Platform, Tables, Session, before_dot, after_dot, upsert_member, user_of, request_link, mint,
  Requested, token_ttl_ms, find_teammate, is_declined, declines, normalized, sign_in, verify_link,
  answer_request, save_token,
}

concat-dot : (s : String) → concat "." s ≡ String.◌∷◌ "." s
concat-dot s = append.cons "." "" s ∙ ap (String.◌∷◌ ".") (append.nil s)

-- A text without a dot is what is before the dot that follows it.
before_dot-concat :
    (id s : String) → before_dot id ≡ id → before_dot (concat id (concat "." s)) ≡ id
unfolding before_dot
before_dot-concat String.[] s e = rw (append.nil (concat "." s), concat-dot s) refl
before_dot-concat (String.◌∷◌ c id) s e = elim (Bool-cases (code c == 46)) [
  | inl dot ↦ cc (rw dot at e)
  | inr other ↦
      let rest = before_dot-concat id s (cons_inj c _ _ (rw other at e)) in
      rw (append.cons c id (concat "." s), other) (ap (String.◌∷◌ c) rest)
]

after_dot-concat :
    (id s : String) → before_dot id ≡ id → after_dot (concat id (concat "." s)) ≡ some s
unfolding before_dot after_dot
after_dot-concat String.[] s e = rw (append.nil (concat "." s), concat-dot s) refl
after_dot-concat (String.◌∷◌ c id) s e = elim (Bool-cases (code c == 46)) [
  | inl dot ↦ cc (rw dot at e)
  | inr other ↦
      let rest = after_dot-concat id s (cons_inj c _ _ (rw other at e)) in
      rw (append.cons c id (concat "." s), other) rest
]

-- The token that was added last, where its id is new.
find-append_new :
    (q : SpaceAuthToken → Bool) (ks : List SpaceAuthToken) (k : SpaceAuthToken)
    → All (λ x. q x ≡ false) ks
    → q k ≡ true
    → find q (ks ++ k ∷ []) ≡ some k
find-append_new q [] k h e = rw e refl
find-append_new q (x ∷ ks) k h e = rw h.0 (find-append_new q ks k h.1 e)

upsert_member-email :
    (now : ℕ) (new_id space_id email : String) (name : Option String) (t : Tables)
    → let u = (upsert_member now new_id space_id email name t).0 in
      (u.email ≡ email) × (u.space_id ≡ space_id)
unfolding upsert_member
upsert_member-email now new_id space_id email name t =
    elim (Option-cases (user_of t.users space_id email)) [
      | inl missing ↦ rw (missing, upsert_member) (refl, refl)
      | inr (u, there) ↦
          let holds =
            find_holds (λ x. str_eq x.space_id space_id && str_eq x.email email) t.users u there in
          rw (there, upsert_member)
            (ground (arith, eq_iff u.email email), ground (arith, eq_iff u.space_id space_id))
    ]

declines_production :
    (signup reached known dev : Bool)
    → dev ≡ false
    → declines (signup || reached || known) reached dev ≡ not reached
declines_production true true known dev e = refl
declines_production true false known dev e = rw e refl
declines_production false true known dev e = refl
declines_production false false true dev e = rw e refl
declines_production false false false dev e = refl

not-not : (b : Bool) → not (not b) ≡ b
not-not true = refl
not-not false = refl

module _ (p : Platform) where
  answer-raw :
      (b : Bool) (now : ℕ) (new_id secret : String) (space : Space) (email : String) (t : Tables)
      (r : Requested p)
      → (if b
          then record { tables = t; raw = none }
          else mint p now new_id secret space (normalized p email) t)
        ≡ r
      → is_some r.raw ≡ not b
  answer-raw true now new_id secret space email t r e = rw (← e) refl
  answer-raw false now new_id secret space email t r e = rw (← e) refl

  -- In production a link is minted exactly for the people on the Slack team of the Space's workspace:
  -- neither open signup nor having signed in before makes a difference.
  pub request_link-production :
      (now : ℕ) (new_id secret slug email : String) (t : Tables) (space : Space) (r : Requested p)
      → p.is_dev ≡ false
      → find_published_by_slug t.spaces slug ≡ given space
      → request_link p now new_id secret slug email t ≡ given r
      → is_some r.raw ≡ is_some (find_teammate p space.workspace_id (normalized p email))
  unfolding request_link
  request_link-production now new_id secret slug email t space r production there e =
      let email' = normalized p email in
      let teammate = find_teammate p space.workspace_id email' in
      let declined =
        declines_production space.spec.allow_signup (is_some teammate)
          (is_some (user_of t.users space.id email')) p.is_dev production in
      let answer : answer_request p now new_id secret email t space ≡ given r = rw (there) at e in
      answer-raw (is_declined p space email t) now new_id secret space email t r (given_inj answer)
      ∙ (ap not declined ∙ not-not (is_some teammate))

  -- A link that was minted signs its addressee in, at the Space that it was requested for, until it
  -- expires after 30 minutes: if bcrypt accepts a secret by its own hash, the new id is not empty,
  -- has no dot and is no other token's, and the secret is not empty and has no dot.
  pub verify_link-requested :
      (now now' : ℕ) (new_id secret user_id slug email : String) (t : Tables) (space : Space)
      → find_published_by_slug t.spaces slug ≡ given space
      → is_declined p space email t ≡ false
      → p.compare secret (p.hash secret) ≡ true
      → (before_dot new_id ≡ new_id) × (str_eq new_id "" ≡ false)
      → (before_dot secret ≡ secret) × (str_eq secret "" ≡ false)
      → All (λ k. str_eq k.id new_id ≡ false) t.tokens
      → now' ≤ now + token_ttl_ms
      → (r : Requested p) × (raw : String) × (s : Session) × (t1 : Tables) × (request_link p now
            new_id secret slug email t
          ≡ given r)
        × (r.raw ≡ some raw)
        × (verify_link p now' user_id slug raw r.tables ≡ given (s, t1))
        × ((s.user.email ≡ normalized p email) × (s.user.space_id ≡ space.id))
  unfolding request_link verify_link
  verify_link-requested now now' new_id secret user_id slug email t space there accepted hashes
        plain_id plain_secret new soon =
      let minted = mint p now new_id secret space (normalized p email) t in
      let row : SpaceAuthToken = record {
        id = new_id;
        space_id = space.id;
        email = normalized p email;
        token_hash = p.hash secret;
        expires_at = now + token_ttl_ms;
        used_at = none;
      } in
      let spent = record (minted.tables) {
        tokens = map (save_token (record row { used_at = some now' })) minted.tables.tokens;
      } in
      let (session, t1) = sign_in p now' user_id space.id row.email none spent in
      let raw = concat new_id (concat "." secret) in
      let before = before_dot-concat new_id secret plain_id.0 in
      let after = after_dot-concat new_id secret plain_id.0 in
      let found : find (λ k. str_eq k.id new_id && str_eq k.space_id space.id) minted.tables.tokens
          ≡ some row =
        find-append_new (λ k. str_eq k.id new_id && str_eq k.space_id space.id) t.tokens row
          (All-imp _ _ t.tokens (λ k other. rw other refl) new)
          (rw ((eq_iff new_id new_id).1 refl, (eq_iff space.id space.id).1 refl) refl) in
      let late : ltb (now + token_ttl_ms) now' ≡ false = ground arith in
      (
        minted,
        raw,
        session,
        t1,
        rw (there, accepted) refl,
        refl,
        rw (there, before, after, plain_id.1, plain_secret.0, plain_secret.1)
            (rw (found, late, hashes) refl),
        upsert_member-email now' user_id space.id (normalized p email) none spent,
      )
