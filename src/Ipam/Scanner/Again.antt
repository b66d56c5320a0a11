-- ===== src/Ipam/Scanner/Again.antt =====
-- A scan, and the one after it.
use text.Mathlib.Text.{◌==◌ as str_eq}
use text.Mathlib.TextEquality.{eq_iff}
use proxmox_manager.Base.{
  ℕ, String, ◌+◌, ◌≡◌, refl, ap, ◌∙◌, inl, inr, Bool, true, ◌||◌, List, [], ◌∷◌, ◌++◌, map, length,
  ◌==◌, ==_refl, any, arith, All, Bool-cases, ok,
}
use proxmox_manager.Domain.{Finding, FindingState}
use proxmox_manager.Store.{Db}
use proxmox_manager.Findings
use proxmox_manager.Ipam.Scanner.{finding, report, unassigned, orphaned, scan}

-- an open finding of this kind is there
abbrev Known : Finding → Db → Type 0
Known f db = any (Findings.conflicts f) db.findings ≡ true

-- its own row is one
abbrev Named : Finding → Type 0
Named f =
    (n : ℕ) → Findings.conflicts f (record f { id = n; state = FindingState.unresolved }) ≡ true

finding-Named : (c t : String) (id : ℕ) → Named (finding c t id)
unfolding Findings.conflicts
finding-Named c t id n =
    let same_c : str_eq c c ≡ true = (eq_iff c c).1 refl in
    let same_t : str_eq t t ≡ true = (eq_iff t t).1 refl in
    let same_id : (id == id) ≡ true = ==_refl id in rw same_c (rw same_t (rw same_id refl))

any-append : (p : Finding → Bool) (xs ys : List Finding) → any p (xs ++ ys) ≡ (any p xs || any p ys)
unfolding any
any-append p [] ys = refl
any-append p (x ∷ xs) ys = ground (arith, any-append p xs ys)

length-snoc : (xs : List Finding) (x : Finding) → length (xs ++ x ∷ []) ≡ length xs + 1
length-snoc [] x = refl
length-snoc (y ∷ xs) x =
    let e : length (xs ++ x ∷ []) ≡ length xs + 1 = length-snoc xs x in omega arith

-- what a finding that is written leaves
record IsWritten (f : Finding) (db db' : Db) : Type 0 where
  instances : db'.instances ≡ db.instances
  allocations : db'.allocations ≡ db.allocations
  keeps : (g : Finding) → Known g db → Known g db'
  makes : Named f → Known f db'

create-IsWritten : (f : Finding) (db : Db) → IsWritten f db (Findings.create f db).1
unfolding Findings.create
create-IsWritten f db = elim (Bool-cases (any (Findings.conflicts f) db.findings)) [
  | inl t ↦ rw t (record { instances = refl; allocations = refl; keeps = λ g k. k; makes = λ n. t })
  | inr t ↦ rw t (record {
    instances = refl;
    allocations = refl;
    keeps = λ g k. any-append (Findings.conflicts g) db.findings _ ∙ rw k refl;
    makes = λ n.
        any-append (Findings.conflicts f) db.findings _
        ∙ rw t (unfold any in rw (n db.next_id) refl);
  })
]

create-Known : (f : Finding) (db : Db) → Known f db → Findings.create f db ≡ (ok true, db)
unfolding Findings.create
create-Known f db k = rw k refl

report-instances : (fs : List Finding) (db : Db) → (report fs db).1.instances ≡ db.instances
unfolding report
report-instances [] db = refl
report-instances (f ∷ fs) db =
    report-instances fs (Findings.create f db).1 ∙ (create-IsWritten f db).instances

report-allocations : (fs : List Finding) (db : Db) → (report fs db).1.allocations ≡ db.allocations
unfolding report
report-allocations [] db = refl
report-allocations (f ∷ fs) db =
    report-allocations fs (Findings.create f db).1 ∙ (create-IsWritten f db).allocations

report-Known : (fs : List Finding) (db : Db) (g : Finding) → Known g db → Known g (report fs db).1
unfolding report
report-Known [] db g k = k
report-Known (f ∷ fs) db g k =
    report-Known fs (Findings.create f db).1 g ((create-IsWritten f db).keeps g k)

report-makes : (fs : List Finding) (db : Db) → All Named fs → All (λ f. Known f (report fs db).1) fs
unfolding report
report-makes [] db all = tt
report-makes (f ∷ fs) db all = (
  report-Known fs (Findings.create f db).1 f ((create-IsWritten f db).makes all.0),
  report-makes fs (Findings.create f db).1 all.1,
)

report-nothing : (fs : List Finding) (db : Db) → All (λ f. Known f db) fs → report fs db ≡ (0, db)
unfolding report
report-nothing [] db all = refl
report-nothing (f ∷ fs) db all = rw (create-Known f db all.0) (rw (report-nothing fs db all.1) refl)

report-length :
    (fs : List Finding) (db : Db)
    → length (report fs db).1.findings ≡ length db.findings + (report fs db).0
unfolding report Findings.create
report-length [] db = omega arith
report-length (f ∷ fs) db = elim (Bool-cases (any (Findings.conflicts f) db.findings)) [
  | inl t ↦ rw t (report-length fs db)
  | inr t ↦ rw t (report-length fs _ ∙ rw (length-snoc db.findings _) (omega arith))
]

All-map :
    {A : Type 0} (f : A → Finding) → ((a : A) → Named (f a)) → (xs : List A) → All Named (map f xs)
All-map f h [] = tt
All-map f h (x ∷ xs) = (h x, All-map f h xs)

All-kept :
    (fs gs : List Finding) (db : Db)
    → All (λ f. Known f db) fs
    → All (λ f. Known f (report gs db).1) fs
All-kept [] gs db all = tt
All-kept (f ∷ fs) gs db all = (report-Known gs db f all.0, All-kept fs gs db all.1)

unassigned-Named : (db : Db) → All Named (unassigned db)
unfolding unassigned
unassigned-Named db = All-map _ (λ i. finding-Named _ _ i.id) _

orphaned-Named : (db : Db) → All Named (orphaned db)
unfolding orphaned
orphaned-Named db = All-map _ (λ a. finding-Named _ _ a.id) _

unassigned-same :
    (db db' : Db)
    → db'.instances ≡ db.instances
    → db'.allocations ≡ db.allocations
    → unassigned db' ≡ unassigned db
unfolding unassigned
unassigned-same db db' p q = rw p (rw q refl)

orphaned-same :
    (db db' : Db)
    → db'.instances ≡ db.instances
    → db'.allocations ≡ db.allocations
    → orphaned db' ≡ orphaned db
unfolding orphaned
orphaned-same db db' p q = rw p (rw q refl)

-- A scan returns the number of the findings that it adds, and a second scan right after it adds
-- none and changes nothing.
pub scan_lem :
    (db : Db)
    → (length (scan db).1.findings ≡ length db.findings + (scan db).0)
      × (scan (scan db).1 ≡ (0, (scan db).1))
unfolding scan
scan_lem db =
    let first : Db = (report (unassigned db) db).1 in
    let second : Db = (report (orphaned first) first).1 in
    let same_instances : second.instances ≡ db.instances =
      report-instances (orphaned first) first ∙ report-instances (unassigned db) db in
    let same_allocations : second.allocations ≡ db.allocations =
      report-allocations (orphaned first) first ∙ report-allocations (unassigned db) db in
    let unassigned_known : All (λ f. Known f second) (unassigned db) =
      All-kept (unassigned db) (orphaned first) first
        (report-makes (unassigned db) db (unassigned-Named db)) in
    let orphaned_known : All (λ f. Known f second) (orphaned first) =
      report-makes (orphaned first) first (orphaned-Named first) in
    let again : unassigned second ≡ unassigned db =
      unassigned-same db second same_instances same_allocations in
    let again' : orphaned second ≡ orphaned first =
      orphaned-same first second (report-instances (orphaned first) first)
        (report-allocations (orphaned first) first) in
    let counts : length second.findings ≡ length db.findings + (scan db).0 =
      report-length (orphaned first) first
      ∙ ap (λ n. n + (report (orphaned first) first).0) (report-length (unassigned db) db)
      ∙ omega arith in
    (
      counts,
      rw again (
          rw (report-nothing (unassigned db) second unassigned_known)
            (rw again' (rw (report-nothing (orphaned first) second orphaned_known) refl))),
    )
