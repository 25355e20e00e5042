-- ===== src/Inventory/Service.antt =====
-- `sync_entry` and `reconcile_existing`. The state is the `certificate` table.
use certman.Base.{
  ℕ, String, false, Option, none, some, List, [], ◌∷◌, ◌++◌, ◌==◌, leb, any, filter, find?,
  if◌then◌else◌, Exec, Result, ok, err,
}
use certman.Config.Entry.{Entry}
use certman.Cert.Lineage.{LineageError, RenewalDir, latest_mode, resolve_entry_cert_name}
use certman.Scheduler.Renewal.{Certificate}

pub data InventoryError : Type 0 where
  value_error file_not_found integrity_error : InventoryError

-- The disk as the service reads it: the renewal files of an entry, and the end of validity of the
-- certificate under a name, if its cert.pem exists; and the hash that `_certificate_id` takes.
pub record Disk : Type 0 where
  pub renewal : Entry → RenewalDir
  pub not_after : String → Option ℕ
  pub certificate_id : String → String

-- `ORDER BY created_at ASC`, the first
unfoldable pub earliest : List Certificate → Option Certificate
earliest [] = none
earliest (c ∷ cs) = elim (earliest cs) [
  | none ↦ some c
  | some d ↦ some (if leb c.created_at d.created_at then c else d)
]

-- UPDATE of the row with the primary key of `c`
unfoldable pub save_certificate : Certificate → List Certificate → List Certificate
save_certificate c [] = []
save_certificate c (d ∷ ds) = (if d.id == c.id then c else d) ∷ save_certificate c ds

unfoldable pub store_certificate :
    Disk → Entry → ℕ → ℕ → Exec (List Certificate) InventoryError Certificate
unfolding earliest save_certificate
store_certificate disk e not_after now db =
    elim (earliest (filter (λ c. c.entry_name == e.name) db)) [
      | none ↦
          let c : Certificate = record {
            id = disk.certificate_id e.name;
            entry_name = e.name;
            primary_domain = e.primary_domain;
            status = "active";
            not_after = some not_after;
            created_at = now;
            updated_at = now;
          } in
          if any (λ d. d.id == c.id) db then (err integrity_error, db) else (ok c, db ++ c ∷ [])
      | some found ↦
          let c = record found {
            primary_domain = e.primary_domain;
            status = "active";
            not_after = some not_after;
            updated_at = now;
          } in
          (ok c, save_certificate c db)
    ]

unfoldable pub sync_lineage :
    Disk
    → Entry
    → ℕ
    → Result LineageError String
    → Exec (List Certificate) InventoryError Certificate
unfolding store_certificate
sync_lineage disk e now (err _) db = (err value_error, db)
sync_lineage disk e now (ok cert_name) db = elim (disk.not_after cert_name) [
  | none ↦ (err file_not_found, db)
  | some t ↦ store_certificate disk e t now db
]

unfoldable pub sync_found :
    Disk → ℕ → Option Entry → Exec (List Certificate) InventoryError Certificate
unfolding sync_lineage
sync_found disk now none db = (err value_error, db)
sync_found disk now (some e) db =
    sync_lineage disk e now (resolve_entry_cert_name e (disk.renewal e) false latest_mode) db

unfoldable pub sync_entry :
    Disk → List Entry → String → ℕ → Exec (List Certificate) InventoryError Certificate
unfolding sync_found
sync_entry disk entries name now db = sync_found disk now (find? (λ e. e.name == name) entries) db

-- The loop of reconcile_existing: only FileNotFoundError is passed over.
unfoldable pub reconcile :
    Disk → List Entry → ℕ → List Entry → Exec (List Certificate) InventoryError (List Certificate)
unfolding sync_entry
reconcile disk entries now [] db = (ok [], db)
reconcile disk entries now (e ∷ es) db =
    let (r, mid) = sync_entry disk entries e.name now db in
    let (others, end) = reconcile disk entries now es mid in
    elim r [
      | ok c ↦ (elim others [ ok cs ↦ ok (c ∷ cs) | err x ↦ err x ], end)
      | err x ↦ elim x [
        | value_error ↦ (err value_error, mid)
        | file_not_found ↦ (others, end)
        | integrity_error ↦ (err integrity_error, mid)
      ]
    ]

unfoldable pub reconcile_existing :
    Disk → List Entry → ℕ → Exec (List Certificate) InventoryError (List Certificate)
unfolding reconcile
reconcile_existing disk entries now db = reconcile disk entries now entries db
