-- ===== src/Api/Replays.antt =====
-- One run for a key, and the same answer after it.
use text.Mathlib.Text.{◌==◌ as str_eq}
use proxmox_manager.Base.{
  ℕ, String, ◌+◌, ◌<◌, ◌≡◌, ◌≢◌, refl, sym, ap, ◌∙◌, subst, inl, inr, Bool, true, false, none, some,
  find, Bool-cases, Option-cases, Result-cases, ==_iff, ==_refl, ◌==◌, Result, ok, err,
  idempotency_conflict,
}
use proxmox_manager.Idempotency.{IdempotencyRecord, is_live, get}
use proxmox_manager.Api.{
  Service, Reply, Json, Work, idempotency_ttl, keys_of, stored, stored_body, replay, run_idempotent,
}
use proxmox_manager.Api.Run.{
  live-append, store-inserts, Committed, execute_lem, is_not_found-get, get-found,
}

==-false : (a b : ℕ) → a ≢ b → (a == b) ≡ false
==-false a b h = elim (Bool-cases (a == b)) [ inl t ↦ absurd (h ((==_iff a b).0 t)) | inr t ↦ t ]

module _ {B J : Type 0} (json : Json B J) (key hash : ℕ) where
  replay-flag :
      (r : IdempotencyRecord) (reply : Reply J) → replay json key hash r ≢ ok (reply, false)
  unfolding replay
  replay-flag r reply e = elim (Bool-cases (r.request_hash == hash)) [
    | inr t ↦
        let bad : Path (Result (Reply J × Bool)) (err idempotency_conflict) (ok (reply, false)) =
          rw t at e in
        cc bad
    | inl t ↦ elim (Result-cases (stored_body json key hash r.response_body)) [
      | inl (body, b) ↦
          let same : Path (Result (Reply J × Bool)) _ (ok (reply, false)) = rw b at (rw t at e) in
          cc same
      | inr (x, b) ↦
          let same : Path (Result (Reply J × Bool)) (err x) (ok (reply, false)) =
            rw b at (rw t at e) in
          cc same
    ]
  ]

  -- a run that is not a replay has committed, on a key that no live row had
  fresh_run :
      (work : Work B) (s s' : Service) (answer : Reply J)
      → run_idempotent json key hash work s ≡ (ok (answer, false), s')
      → (find (is_live s.resources.db.now key) s.records ≡ none)
        × (reply : Reply B) × Committed json key hash work s reply s'
        × (answer ≡ record { status = reply.status; body = json.value reply.body })
  unfolding run_idempotent
  fresh_run work s s' answer e =
      elim (Option-cases (find (is_live s.resources.db.now key) s.records)) [
        | inr (r, live) ↦ absurd (
            replay-flag r answer
              (ap (λ o. o.0) (rw (get-found json key hash (keys_of s) r live) at e)))
        | inl free ↦ elim (execute_lem json key hash work s) [
          | inr (x, after, p, _) ↦
              let bad : Path (Result (Reply J × Bool) × Service) (err x, after)
                  (ok (answer, false), s') =
                rw p at (rw (is_not_found-get json key hash (keys_of s) free) at e) in
              cc (ap (λ o. o.0) bad)
          | inl (reply, after, p, done) ↦
              let same : Path (Result (Reply J × Bool) × Service)
                  (
                    ok (record { status = reply.status; body = json.value reply.body }, false),
                    after,
                  )
                  (ok (answer, false), s') =
                rw p at (rw (is_not_found-get json key hash (keys_of s) free) at e) in
              (
                free,
                reply,
                subst (Committed json key hash work s reply) (ap (λ o. o.1) same) done,
                sym (ok-answer (ap (λ o. o.0) same)),
              )
        ]
      ]
    where
      ok-answer :
          {x y : Reply J} → Path (Result (Reply J × Bool)) (ok (x, false)) (ok (y, false)) → x ≡ y
      ok-answer {x} e = ap (λ r. answer_of r) e
        where
          answer_of : Result (Reply J × Bool) → Reply J
          answer_of (ok (y, _)) = y
          answer_of (err _) = x

  -- the row that a committed run leaves, read until it expires
  Committed-row :
      (work : Work B) (s s' : Service) (reply : Reply B)
      → find (is_live s.resources.db.now key) s.records ≡ none
      → Committed json key hash work s reply s'
      → (now : ℕ) → now < s.resources.db.now + idempotency_ttl
      → (text : String) × (json.marshal reply.body ≡ ok text)
        × (find (is_live now key) s'.records
            ≡ some (stored json key hash s.resources.db.now reply text))
  Committed-row work s s' reply free (text, after, _, m, done, e) now early =
      let rec : IdempotencyRecord = stored json key hash s.resources.db.now reply text in
      let (absent, rows) = store-inserts rec (keys_of s) free done in
      (
        text,
        m,
        ap (λ x. find (is_live now key) x.records) e
            ∙ ap (find (is_live now key)) rows
            ∙ live-append now rec s.records absent early,
      )

  module _
      (reads_back : (b : B) (text : String)
        → json.marshal b ≡ ok text
        → (str_eq text "" ≡ false) × (json.unmarshal text ≡ ok (json.value b))) where
    -- Where encoding/json reads a body back as it was written: after a run that was committed, until
    -- its row expires, a run with the key and the same hash answers the same without running any
    -- work or changing anything, and one with the key and another hash is ErrIdempotencyConflict
    -- with nothing changed.
    pub run_idempotent-replays :
        (work : Work B) (s s' : Service) (answer : Reply J)
        → run_idempotent json key hash work s ≡ (ok (answer, false), s')
        → (later : Service) → later.records ≡ s'.records
        → later.resources.db.now < s.resources.db.now + idempotency_ttl
        → ((again : Work B) → run_idempotent json key hash again later ≡ (ok (answer, true), later))
          × ((other : ℕ)
              → other ≢ hash
              → (again : Work B)
              → run_idempotent json key other again later ≡ (err idempotency_conflict, later))
    unfolding run_idempotent replay
    run_idempotent-replays work s s' answer e later same early =
        let (free, reply, done, is_answer) = fresh_run work s s' answer e in
        let (text, m, row) = Committed-row work s s' reply free done later.resources.db.now early in
        let (nonempty, back) = reads_back reply.body text m in
        let found : (get key (keys_of later)).0
            ≡ ok (stored json key hash s.resources.db.now reply text) =
          get-found json key hash (keys_of later) _
            (ap (find (is_live later.resources.db.now key)) same ∙ row) in
        (
          λ again. rw found (
              rw (==_refl hash)
                (rw nonempty (rw back (ap (λ x. (ok (x, true), later)) (sym is_answer))))),
          λ other differs again. rw found (rw (==-false hash other (λ p. differs (sym p))) refl),
        )
