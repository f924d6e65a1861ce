-- ===== src/Replay.antt =====
-- apps/web/src/server/financial.ts, `replay` and `saveReplay`: a request with an Idempotency-Key is done once,
-- and its result returned again. The digests (security.ts, `digest`) are numbers that the caller computes.
use mathlib.Core.Path.{subst}
use cafe_retail_software.Database.{Database}
use cafe_retail_software.Documents.Operations.{Outcome, OperationKey}
use cafe_retail_software.Prelude.{
  ℕ, ◌≡◌, Option, none, leb, some, ◌≢◌, ◌&&◌, ◌==◌, true, find_first, sym, ◌∙◌,
  find_first-append_none, arith, inl, inr,
}
use cafe_retail_software.Result.{
  Action, modify, ◌>>◌, ok, require_value, err, ◌>>=◌, gets, idempotency_conflict, pure, ensure,
  ensure->>-eq-ok, validation_error, ok-injective,
}
use cafe_retail_software.Mongo.{Mongo, find_one-cases}

pub record RequestKey : Type 0 where
  -- The length of the header's text.
  pub length : ℕ
  -- The digest of company, user, action and key.
  pub id : ℕ
  -- The digest of the body.
  pub hash : ℕ

-- What a saved result gives to a request.
abbrev answer : {S : Type 0} → RequestKey → Option OperationKey → Action S (Option Outcome)
answer key none = pure none
answer key (some k) = ensure (k.hash == key.hash) idempotency_conflict >> pure (some k.result)

abbrev saved_key : RequestKey → Outcome → OperationKey
saved_key key result = record { id = key.id; hash = key.hash; result = result }

module _ (m : Mongo) where
  -- The result that was saved for the key, if there is one, and it belongs to the same body.
  unfoldable pub replay : RequestKey → Action (Database m) (Option Outcome)
  replay key = do
    require_value (leb 8 key.length && leb key.length 150)
    old ← gets (λ s. m.find_one (λ k. k.id == key.id) s.operation_keys)
    answer key old

  unfoldable pub save_replay : RequestKey → Outcome → Action (Database m) (Unit {0})
  save_replay key result =
      modify
        (λ s. record s { operation_keys = m.insert_one (saved_key key result) s.operation_keys })

  found_saved :
      (key : RequestKey) (id : ℕ) (result : Outcome) (s : Database m)
      → id ≡ key.id
      → m.find_one (λ k. k.id == key.id) s.operation_keys ≡ none
      → m.find_one (λ k. k.id == id) (m.insert_one (saved_key key result) s.operation_keys)
        ≡ some (saved_key key result)
  found_saved key id result s same missing =
      let before : find_first (λ k. k.id == key.id) (m.docs s.operation_keys) ≡ none =
        sym (m.find_one-eq _ s.operation_keys) ∙ missing in
      rw same (
        m.find_one-eq _ _
        ∙ rw (m.docs-insert_one (saved_key key result) s.operation_keys)
            (find_first-append_none _ (m.docs s.operation_keys) _ before ∙ ground arith))

  pub replay_keeps :
      (key : RequestKey) (s : Database m) {old : Option Outcome} {t : Database m}
      → replay key s ≡ ok (old, t)
      → t ≡ s
  unfolding replay
  replay_keeps key s h =
      let (good, h1) =
        ensure->>-eq-ok (leb 8 key.length && leb key.length 150) validation_error _ s h in
      elim (find_one-cases m (λ k. k.id == key.id) s.operation_keys) [
        | inl missing ↦ ground arith
        | inr (k, found, passes) ↦ ground arith
      ]

  -- A request that found nothing has found no document, and written none.
  replay_missing :
      (key : RequestKey) (s t : Database m)
      → replay key s ≡ ok (none, t)
      → (m.find_one (λ k. k.id == key.id) s.operation_keys ≡ none)
        × (s ≡ t)
        × ((leb 8 key.length && leb key.length 150) ≡ true)
  unfolding replay
  replay_missing key s t h =
      let (good, h1) =
        ensure->>-eq-ok (leb 8 key.length && leb key.length 150) validation_error _ s h in
      elim (find_one-cases m (λ k. k.id == key.id) s.operation_keys) [
        | inl missing ↦ (missing, ground arith, good)
        | inr (k, found, passes) ↦ ground arith
      ]

  -- A request that found no earlier result and then saved its own gives that result to the next request
  -- with the same key and body that is well formed, and refuses such a request with another body.
  pub replay-save_replay :
      (key other : RequestKey) (result : Outcome) (s t u : Database m)
      → replay key s ≡ ok (none, t)
      → save_replay key result t ≡ ok (tt, u)
      → other.id ≡ key.id
      → (leb 8 other.length && leb other.length 150) ≡ true
      → (other.hash ≡ key.hash → replay other u ≡ ok (some result, u))
        × (other.hash ≢ key.hash → replay other u ≡ err idempotency_conflict)
  unfolding replay save_replay
  replay-save_replay key other result s t u h saved same good =
      let (missing, unchanged, _) = replay_missing key s t h in
      let found = found_saved key other.id result t same (rw unchanged at missing) in
      let keys =
        subst
          (λ p. m.find_one (λ k. k.id == other.id) p.1.operation_keys ≡ some (saved_key key result))
          (ok-injective saved) found in
      (λ e. rw good (rw keys (ground arith)), λ e. rw good (rw keys (ground arith)))
