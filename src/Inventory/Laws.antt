-- ===== src/Inventory/Laws.antt =====
-- A synchronised entry is active in the table, and the rows of other entries are not touched.
use certman.Base.{
  ℕ, String, ◌≡◌, refl, inl, inr, true, false, some, List, [], ◌∷◌, ◌++◌, Memᴰ, ◌==◌, leb, filter,
  find?, if◌then◌else◌, ok, Bool-cases, Option-cases, Result-cases, arith, eq_iff,
  mem_of_mem-filter,
}
use certman.Config.Entry.{Entry}
use certman.Cert.Lineage.{latest_mode, resolve_entry_cert_name}
use certman.Scheduler.Renewal.{Certificate}
use certman.Inventory.Service.{
  Disk, earliest, save_certificate, store_certificate, sync_lineage, sync_found, sync_entry,
}

earliest-mem : (cs : List Certificate) (c : Certificate) → earliest cs ≡ some c → Memᴰ c cs
unfolding earliest
earliest-mem [] c h = absurd (ground arith)
earliest-mem (x ∷ xs) c h = elim (Option-cases (earliest xs)) [
  | inl e ↦ Memᴰ.head (ground arith)
  | inr (d, e) ↦ elim (Bool-cases (leb x.created_at d.created_at)) [
    | inl f ↦ Memᴰ.head (ground arith)
    | inr f ↦ Memᴰ.tail (earliest-mem xs c (ground arith))
  ]
]

save-mem :
    (c d : Certificate) (db : List Certificate)
    → Memᴰ d db
    → d.id ≡ c.id
    → Memᴰ c (save_certificate c db)
unfolding save_certificate
save-mem c d [] m e = elim m [ ]
save-mem c d (x ∷ xs) (Memᴰ.head f) e =
    let same : x.id ≡ c.id = rw (← f) e in
    let hit : (x.id == c.id) ≡ true = ground (arith, eq_iff x.id c.id) in
    rw (hit, if◌then◌else◌) (Memᴰ.head refl)
save-mem c d (x ∷ xs) (Memᴰ.tail m) e = Memᴰ.tail (save-mem c d xs m e)

last-mem : (c : Certificate) (db : List Certificate) → Memᴰ c (db ++ c ∷ [])
last-mem c [] = Memᴰ.head refl
last-mem c (x ∷ xs) = Memᴰ.tail (last-mem c xs)

store_sound :
    (disk : Disk) (e : Entry) (t now : ℕ) (db db' : List Certificate) (c : Certificate)
    → store_certificate disk e t now db ≡ (ok c, db')
    → Memᴰ c db'
      × (c.entry_name ≡ e.name)
      × (c.status ≡ "active")
      × (c.not_after ≡ some t)
      × (c.primary_domain ≡ e.primary_domain)
unfolding store_certificate
store_sound disk e t now db db' c h =
    elim (Option-cases (earliest (filter (λ x. x.entry_name == e.name) db))) [
      | inl f ↦
          let grown : db' ≡ db ++ c ∷ [] = ground arith in
          (rw grown (last-mem c db), ground arith, ground arith, ground arith, ground arith)
      | inr (d, f) ↦
          let (m, q) = mem_of_mem-filter (λ x. x.entry_name == e.name) db (earliest-mem _ d f) in
          let saved : db' ≡ save_certificate c db = ground arith in
          (
            rw saved (save-mem c d db m (ground arith)),
            ground (arith, eq_iff d.entry_name e.name),
            ground arith,
            ground arith,
            ground arith,
          )
    ]

-- When an entry is synchronised, the table holds a row for it that is active, with its primary domain
-- and the end of validity of the certificate that the latest resolution names.
pub sync_sound :
    (disk : Disk) (entries : List Entry) (name : String) (now : ℕ) (db db' : List Certificate)
    (c : Certificate)
    → sync_entry disk entries name now db ≡ (ok c, db')
    → (e : Entry) × (cert_name : String) × (t : ℕ) × (find? (λ x. x.name == name) entries ≡ some e)
      × (resolve_entry_cert_name e (disk.renewal e) false latest_mode ≡ ok cert_name)
      × (disk.not_after cert_name ≡ some t)
      × (Memᴰ c db'
          × (c.entry_name ≡ e.name)
          × (c.status ≡ "active")
          × (c.not_after ≡ some t)
          × (c.primary_domain ≡ e.primary_domain))
unfolding sync_entry sync_found sync_lineage
sync_sound disk entries name now db db' c h =
    elim (Option-cases (find? (λ x. x.name == name) entries)) [
      | inl f ↦ absurd (ground arith)
      | inr (e, f) ↦
          elim (Result-cases (resolve_entry_cert_name e (disk.renewal e) false latest_mode)) [
            | inl (x, g) ↦ absurd (ground arith)
            | inr (cert_name, g) ↦ elim (Option-cases (disk.not_after cert_name)) [
              | inl k ↦ absurd (ground arith)
              | inr (t, k) ↦
                  (e, cert_name, t, f, g, k, store_sound disk e t now db db' c (ground arith))
            ]
          ]
    ]
