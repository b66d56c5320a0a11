-- ===== src/Alerts/Acknowledged.antt =====
-- What the acknowledgement of an alert does.
use proxmox_manager.Base.{
  ℕ, String, ◌≡◌, ◌≢◌, refl, sym, ap, ◌∙◌, inl, inr, Bool, true, false, ◌&&◌, ◌||◌, Option, none,
  some, List, [], ◌∷◌, find, find-eq-some, find-eq-none, find-update_where, any-false, count_where,
  count_where-none, update_where, update_where-agree, ◌==◌, ==_iff, Bool-cases, Option-cases,
  Result, ok, err, not_found, version_conflict, Unique, All, All-intro, same_row, count_where-row,
}
use proxmox_manager.Domain.{Alert}
use proxmox_manager.Store.{Db}
use proxmox_manager.Alerts.{has_id, get, acknowledgeable, acknowledged_alert, acknowledge}

abbrev alert_key : Alert → ℕ
alert_key a = a.id

module _ (id actor : ℕ) (note : Option String) (expected : ℕ) (db : Db) where
  data Acknowledged : Result Alert × Db → Type 0 where
    missing : find (has_id id) db.alerts ≡ none → Acknowledged (err not_found, db)
    stale :
        (a : Alert)
        → find (has_id id) db.alerts ≡ some a
        → expected ≢ 0
        → a.version ≢ expected
        → Acknowledged (err version_conflict, db)
    acknowledged :
        (a : Alert)
        → find (has_id id) db.alerts ≡ some a
        → (expected == 0 || a.version == expected) ≡ true
        → Acknowledged (
          ok (acknowledged_alert actor db.now note a),
          record db {
            alerts = update_where (has_id id) (acknowledged_alert actor db.now note) db.alerts;
          },
        )

  -- where ids are unique, the WHERE is that of the id with the test on the row
  acknowledgeable-row :
      (a : Alert) (b : Bool)
      → Unique alert_key db.alerts
      → find (has_id id) db.alerts ≡ some a
      → (expected == 0 || a.version == expected) ≡ b
      → All (λ x. acknowledgeable id expected x ≡ (has_id id x && b)) db.alerts
  unfolding acknowledgeable
  acknowledgeable-row a b u e t =
      All-intro (λ x. acknowledgeable id expected x ≡ (has_id id x && b)) db.alerts
        (λ x m. elim (Bool-cases (has_id id x)) [
          | inl h ↦
              let same : x ≡ a = same_row alert_key db.alerts id u e m ((==_iff x.id id).0 h) in
              rw h (ap (λ z. expected == 0 || z.version == expected) same ∙ t)
          | inr h ↦ rw h refl
        ])

  found-refused :
      (a : Alert)
      → (expected == 0 || a.version == expected) ≡ false
      → (expected ≢ 0) × ((expected == 0) ≡ false) × (a.version ≢ expected)
  found-refused a t = elim (Bool-cases (expected == 0)) [
    | inl z ↦ let bad : true ≡ false = rw z at t in cc bad
    | inr z ↦ elim (Bool-cases (a.version == expected)) [
      | inl v ↦ let bad : true ≡ false = rw v at (rw z at t) in cc bad
      | inr v ↦ (
        λ x. let bad : true ≡ false = sym ((==_iff expected 0).1 x) ∙ z in cc bad,
        z,
        λ x. let bad : true ≡ false = sym ((==_iff a.version expected).1 x) ∙ v in cc bad,
      )
    ]
  ]

  -- Where alert ids are unique, Acknowledge reports ErrNotFound where no alert has the id, and
  -- ErrVersionConflict where a version is expected that the alert is not at, with nothing changed
  -- in either case. Otherwise that alert alone is changed, to acknowledged by the actor with the
  -- note and one version on, and it is returned.
  acknowledge_lem :
      Unique alert_key db.alerts → Acknowledged (acknowledge id actor note expected db)
  unfolding acknowledge get
  acknowledge_lem u = elim (Option-cases (find (has_id id) db.alerts)) [
    | inl e ↦
        let none_fits : All (λ x. acknowledgeable id expected x ≡ false) db.alerts =
          All-map-false (any-false (has_id id) db.alerts (find-eq-none (has_id id) db.alerts e)) in
        let zero_rows : count_where (acknowledgeable id expected) db.alerts ≡ 0 =
          count_where-none (acknowledgeable id expected) db.alerts none_fits in
        rw zero_rows (rw e (missing e))
    | inr (a, e) ↦ elim (Bool-cases (expected == 0 || a.version == expected)) [
      | inr t ↦
          let none_fits : All (λ x. acknowledgeable id expected x ≡ false) db.alerts =
            All-refused (acknowledgeable-row a false u e t) in
          let zero_rows : count_where (acknowledgeable id expected) db.alerts ≡ 0 =
            count_where-none (acknowledgeable id expected) db.alerts none_fits in
          let (nonzero, z, v) = found-refused a t in
          rw zero_rows (rw e (rw z (stale a e nonzero v)))
      | inl t ↦
          let agree : All (λ x. acknowledgeable id expected x ≡ has_id id x) db.alerts =
            All-fits (acknowledgeable-row a true u e t) in
          let hit : has_id id a ≡ true = find-eq-some (has_id id) db.alerts a e in
          let fits : acknowledgeable id expected a ≡ true = unfold acknowledgeable in rw hit t in
          rw (count_where-row (has_id id) (acknowledgeable id expected) db.alerts a e fits) (
            rw
              (update_where-agree (acknowledgeable id expected) (has_id id)
                (acknowledged_alert actor db.now note) db.alerts agree)
              (rw
                (find-update_where (has_id id) (has_id id) (acknowledged_alert actor db.now note)
                  (λ x. refl) db.alerts)
                (rw e (rw hit (acknowledged a e t)))))
    ]
  ]
    where
      &&-false : (b : Bool) → (b && false) ≡ false
      &&-false true = refl
      &&-false false = refl

      &&-true : (b : Bool) → (b && true) ≡ b
      &&-true true = refl
      &&-true false = refl

      All-imply :
          (P Q : Alert → Type 0)
          → ((x : Alert) → P x → Q x)
          → (xs : List Alert) → All P xs
          → All Q xs
      All-imply P Q f [] all = tt
      All-imply P Q f (x ∷ xs) all = (f x all.0, All-imply P Q f xs all.1)

      All-map-false :
          All (λ x. has_id id x ≡ false) db.alerts
          → All (λ x. acknowledgeable id expected x ≡ false) db.alerts
      All-map-false = All-imply _ _ (λ x h. unfold acknowledgeable in rw h refl) db.alerts

      All-refused :
          All (λ x. acknowledgeable id expected x ≡ (has_id id x && false)) db.alerts
          → All (λ x. acknowledgeable id expected x ≡ false) db.alerts
      All-refused = All-imply _ _ (λ x h. h ∙ &&-false (has_id id x)) db.alerts

      All-fits :
          All (λ x. acknowledgeable id expected x ≡ (has_id id x && true)) db.alerts
          → All (λ x. acknowledgeable id expected x ≡ has_id id x) db.alerts
      All-fits = All-imply _ _ (λ x h. h ∙ &&-true (has_id id x)) db.alerts
