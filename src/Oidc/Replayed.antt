-- ===== src/Oidc/Replayed.antt =====
-- The exchange of a code that was spent: exchange_code of crates/saffui-core/src/oidc/token.rs and
-- take_back_what_a_code_obtained, over the codes of code.rs.
use mathlib.Core.List.{Memᴰ}
use saffui.Base.Bytes.{bytes_keys, bytes_eqb_iff}
use saffui.Base.{
  ℕ, String, Bool, true, ◌≡◌, ◌≢◌, refl, sym, ap, ◌∙◌, subst, Option, none, some, List, [], ◌∷◌,
  ◌++◌, arith, All, ◌==◌, find, number_keys, text_keys, Bool-cases, Option-cases, inl, inr,
}
use saffui.Errors.{grant_invalid}
use saffui.Work.{Stage, done}
use saffui.Tokens.{RefreshToken, StoredRefreshToken, is_some, spend_refresh_token}
use saffui.Clients.{Client}
use saffui.Oidc.Codes.{
  KeptCode, AuthorizationCode, ReplayedCode, spend_kept, mark_kept, spend_authorization_code,
  mark_code_replayed,
}
use saffui.Oidc.World.{Db, World, TokenResponse}
use saffui.Oidc.Token.{take_back, take_back_what_a_code_obtained, exchange_spend}
use saffui.Oidc.Grant.{Answer, refuse, exchange_code}
use saffui.Oidc.Units.{IsClient, spending}
use saffui.Oidc.Steps.{Reach, here, next, spent}
use saffui.Oidc.Safety.{nothing, marked-ne}
use saffui.Oidc.Kept.{has_mark, Reach-keeps}
use saffui.Oidc.Clear.{clear, identify-clear, at_code_middle}
use saffui.Oidc.Reuse.{end_family-clear}

abbrev was_replayed : List ℕ → List KeptCode → Bool
was_replayed = has_mark (λ k. is_some k.replayed_at)

Reach-was_replayed :
    (digest : List ℕ) {d d' : Db}
    → Reach d d'
    → was_replayed digest d.codes ≡ true
    → was_replayed digest d'.codes ≡ true
Reach-was_replayed digest =
    Reach-keeps (λ k. is_some k.replayed_at) digest
      (λ now k. (ground arith, λ h. ground (arith, h)))
      (λ family k. (ground arith, λ h. ground (arith, h)))
      (λ client_id now k. (ground arith, λ h. ground (arith, h)))

was_replayed_middle :
    (digest : List ℕ) (before after : List KeptCode) (k : KeptCode)
    → All (λ x. x.code.code_digest ≢ digest) before
    → k.code.code_digest ≡ digest
    → is_some k.replayed_at ≡ true
    → was_replayed digest (before ++ k ∷ after) ≡ true
unfolding has_mark
was_replayed_middle digest [] after k h e m = rw ((bytes_eqb_iff k.code.code_digest digest).1 e) m
was_replayed_middle digest (x ∷ before) after k h e m =
    elim (Bool-cases (x.code.code_digest == digest)) [
      | inl b ↦ absurd (h.0 ((bytes_eqb_iff x.code.code_digest digest).0 b))
      | inr b ↦ rw b (was_replayed_middle digest before after k h.1 e m)
    ]

Reach-trans : {d e f : Db} → Reach d e → Reach e f → Reach d f
Reach-trans r here = r
Reach-trans r (next q st) = next (Reach-trans r q) st

-- The code that a digest finds.
abbrev pub find_code : List ℕ → List KeptCode → Option KeptCode
find_code digest = find (λ k. k.code.code_digest == digest)

found_replayed :
    (digest : List ℕ) (ks : List KeptCode) (k : KeptCode)
    → find_code digest ks ≡ some k
    → was_replayed digest ks ≡ true
    → Memᴰ k ks × (is_some k.replayed_at ≡ true)
unfolding has_mark
found_replayed digest [] k e h = absurd (cc)
found_replayed digest (x ∷ ks) k e h = elim (Bool-cases (x.code.code_digest == digest)) [
  | inl b ↦
      let same : x ≡ k = ground (arith, e, b) in
      (
        Memᴰ.head (sym same),
        subst (λ (y : KeptCode). is_some y.replayed_at ≡ true) same (rw b at h),
      )
  | inr b ↦ let (m, r) = found_replayed digest ks k (rw b at e) (rw b at h) in (Memᴰ.tail m, r)
]

-- What was obtained is taken back, where no call fails, and the codes are left as they were.
module _ (w : World) where
  take_back-clear :
      (client_id : String) (o : Option ReplayedCode) (d : Db)
      → (d' : Db) × (take_back w client_id o (clear d) ≡ done (tt, clear d')) × (d'.codes ≡ d.codes)
  take_back-clear client_id none d = (d, refl, refl)
  take_back-clear client_id (some r) d = elim (Option-cases r.family) [
    | inl e ↦ (d, rw e refl, refl)
    | inr (f, e) ↦
        let (d', ends, _, codes_are) =
          end_family-clear client_id f r.person r.session "code_replayed" w.asked_at d in
        (d', rw (e, ends) refl, codes_are)
  ]

  -- A spent code is not spent again.
  spending_spent :
      (digest : List ℕ) (before after : List KeptCode) (k : KeptCode) (d : Db)
      → d.codes ≡ before ++ k ∷ after
      → All (λ x. x.code.code_digest ≢ digest) before
      → k.code.code_digest ≡ digest
      → is_some k.spent_at ≡ true
      → spending w digest d ≡ (none, before ++ k ∷ after)
  unfolding spend_authorization_code
  spending_spent digest before after k d c h e u =
      ap (λ ks. spend_authorization_code ks digest w.asked_at) c
      ∙ at_code_middle digest none (spend_kept w.asked_at) before after k h e
      ∙ ap (λ (p : Option AuthorizationCode × KeptCode). (p.0, before ++ p.1 ∷ after)) kept
    where
      kept : spend_kept w.asked_at k ≡ (none, k)
      kept = rw u refl

  -- A spent code that its client presents again is marked from then on.
  marked_spent :
      (digest : List ℕ) (client_id : String) (before after : List KeptCode) (k : KeptCode)
      → All (λ x. x.code.code_digest ≢ digest) before
      → k.code.code_digest ≡ digest
      → is_some k.spent_at ≡ true
      → k.code.client_id ≡ client_id
      → was_replayed digest (mark_code_replayed (before ++ k ∷ after) digest client_id w.asked_at).1
        ≡ true
  unfolding mark_code_replayed
  marked_spent digest client_id before after k h e u c =
      let m : KeptCode → Option ReplayedCode × KeptCode = mark_kept client_id w.asked_at in
      rw (at_code_middle digest none m before after k h e)
        (was_replayed_middle digest before after (m k).1 h same marks)
    where
      yes : (k.code.client_id == client_id) ≡ true
      yes = (text_keys.same_iff k.code.client_id client_id).1 c

      same : (mark_kept client_id w.asked_at k).1.code.code_digest ≡ digest
      same = ground (arith, e)

      marks : is_some (mark_kept client_id w.asked_at k).1.replayed_at ≡ true
      marks = ground (arith, u, yes)

  -- What the first unit of work of the exchange leaves: the code is marked.
  exchange_spend-spent :
      (id : String) (secret : Option (List ℕ)) (presented : List ℕ) (client : Client)
      (before after : List KeptCode) (k : KeptCode) (d : Db)
      → d.codes ≡ before ++ k ∷ after
      → All (λ x. x.code.code_digest ≢ w.sha256 presented) before
      → k.code.code_digest ≡ w.sha256 presented
      → is_some k.spent_at ≡ true
      → k.code.client_id ≡ client.client_id
      → IsClient w id secret client
      → client.allows_authorization_code ≡ true
      → (d' : Db) × (exchange_spend w id secret presented (clear d)
          ≡ done ((client, none), clear d'))
        × (was_replayed (w.sha256 presented) d'.codes ≡ true)
  unfolding exchange_spend take_back_what_a_code_obtained
  exchange_spend-spent id secret presented client before after k d c h e u of_client proves may =
      let digest : List ℕ = w.sha256 presented in
      let ks : List KeptCode = before ++ k ∷ after in
      let marked : Option ReplayedCode × List KeptCode =
        mark_code_replayed ks digest client.client_id w.asked_at in
      let (d', takes, codes_are) =
        take_back-clear client.client_id marked.0 (record d { codes = marked.1 }) in
      (
        d',
        rw
            (
              identify-clear w id secret client d proves,
              may,
              spending_spent digest before after k d c h e u,
              takes,
            )
            refl,
        rw codes_are (marked_spent digest client.client_id before after k h e u of_client),
      )

  exchange_code-spent :
      (id : String) (secret : Option (List ℕ)) (presented : List ℕ) (redirect_uri : String)
      (verifier : List ℕ) (client : Client) (s : Stage Db) (d' : Db)
      → exchange_spend w id secret presented s ≡ done ((client, none), clear d')
      → exchange_code w id secret presented redirect_uri verifier s ≡ (d', refuse grant_invalid)
  unfolding exchange_code
  exchange_code-spent id secret presented redirect_uri verifier client s d' e = rw e refl

  -- In a realm that its requests made, where a code that was spent, the first of its digest, is presented
  -- again by a client that proves to be its client and may use codes, and no call fails, the answer is
  -- `invalid_grant`, and after whatever requests come then, in whatever order, no refresh token is spent
  -- of the family that the code is bound to, be it bound before or after. What `mint_id` makes is taken to
  -- be new.
  pub replayed-ne :
      (id : String) (secret : Option (List ℕ)) (presented : List ℕ) (redirect_uri : String)
      (verifier : List ℕ) (client : Client) (before after : List KeptCode) (k : KeptCode)
      (d d' : Db) (answer : Answer TokenResponse) {e : Db} (later : KeptCode) (f : ℕ)
      (digest : List ℕ) (client_id : String) (now : ℕ) (t : RefreshToken)
      (rest : List StoredRefreshToken)
      → Reach nothing d
      → d.codes ≡ before ++ k ∷ after
      → All (λ x. x.code.code_digest ≢ w.sha256 presented) before
      → k.code.code_digest ≡ w.sha256 presented
      → is_some k.spent_at ≡ true
      → k.code.client_id ≡ client.client_id
      → IsClient w id secret client
      → client.allows_authorization_code ≡ true
      → exchange_code w id secret presented redirect_uri verifier (clear d) ≡ (d', answer)
      → Reach d' e
      → find_code (w.sha256 presented) e.codes ≡ some later
      → later.family ≡ some f
      → spend_refresh_token e.tokens digest client_id now ≡ some (t, rest)
      → (answer ≡ refuse grant_invalid) × (t.family ≢ f)
  replayed-ne id secret presented redirect_uri verifier client before after k d d' answer {e} later
        f digest client_id now t rest made codes_are others of_digest used of_client proves may
        answers reach found bound h =
      let (end, spends, marked) =
        exchange_spend-spent id secret presented client before after k d codes_are others of_digest
          used of_client proves may in
      let same : (end, refuse grant_invalid) ≡ (d', answer) =
        sym (
          exchange_code-spent id secret presented redirect_uri verifier client (clear d) end spends)
        ∙ answers in
      let stays : end ≡ d' = ap (λ (p : Db × Answer TokenResponse). p.0) same in
      let onwards : Reach end e = subst (λ x. Reach x e) (sym stays) reach in
      let (m, r) =
        found_replayed (w.sha256 presented) e.codes later found
          (Reach-was_replayed (w.sha256 presented) onwards marked) in
      (
        sym (ap (λ (p : Db × Answer TokenResponse). p.1) same),
        marked-ne later f digest client_id now t rest
            (Reach-trans (next made (spent w id secret presented (clear d) _ spends)) onwards) m r
            bound h,
      )
