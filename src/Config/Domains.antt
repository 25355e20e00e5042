-- ===== src/Config/Domains.antt =====
-- `entry_domains`: each domain once, the primary one first.
use certman.Base.{
  String, ◌<>◌, ◌≡◌, refl, inl, inr, Bool, true, false, List, [], ◌∷◌, ◌++◌, ◌==◌, if◌then◌else◌,
  any, Memᴰ, any_of_mem, ◌↔◌, ◌⊎◌, sym, ◌∙◌, Bool-cases, arith, eq_iff, str_refl,
}
use certman.Config.Entry.{Entry, unique, all_domains, entry_domains}

-- The list has the text.
abbrev pub has : String → List String → Bool
has d = any (λ s. s == d)

-- No text comes twice.
abbrev pub IsDistinct : List String → Type 0
IsDistinct [] = Unit
IsDistinct (d ∷ ds) = (has d ds ≡ false) × IsDistinct ds

unique_nil : (seen : List String) → unique seen [] ≡ []
unfolding unique
unique_nil seen = refl

module _ (seen : List String) (d : String) (ds : List String) where
  unique_repeated : has d seen ≡ true → unique seen (d ∷ ds) ≡ unique seen ds
  unfolding unique
  unique_repeated e = rw (e, if◌then◌else◌) refl

  unique_new : has d seen ≡ false → unique seen (d ∷ ds) ≡ d ∷ unique (d ∷ seen) ds
  unfolding unique
  unique_new e = rw (e, if◌then◌else◌) refl

differs :
    (x d : String) (seen : List String) → has d seen ≡ false → has x seen ≡ true → (d == x) ≡ false
differs x d seen e h = elim (Bool-cases (d == x)) [
  | inr f ↦ f
  | inl f ↦ let same : d ≡ x = ground (arith, eq_iff d x) in absurd (ground (arith, rw same at e))
]

repeated_dropped :
    (x : String) (seen ds : List String) → has x seen ≡ true → has x (unique seen ds) ≡ false
repeated_dropped x seen [] h = rw (unique_nil seen) refl
repeated_dropped x seen (d ∷ ds) h = elim (Bool-cases (has d seen)) [
  | inl e ↦ rw (unique_repeated seen d ds e) (repeated_dropped x seen ds h)
  | inr e ↦
      let rest = repeated_dropped x (d ∷ seen) ds (ground arith) in
      let other : (d == x) ≡ false = differs x d seen e h in
      rw (unique_new seen d ds e) (ground arith)
]

unique-IsDistinct : (seen ds : List String) → IsDistinct (unique seen ds)
unique-IsDistinct seen [] = rw (unique_nil seen) tt
unique-IsDistinct seen (d ∷ ds) = elim (Bool-cases (has d seen)) [
  | inl e ↦ rw (unique_repeated seen d ds e) (unique-IsDistinct seen ds)
  | inr e ↦ rw (unique_new seen d ds e) (
    repeated_dropped d (d ∷ seen) ds (ground (arith, str_refl d)),
    unique-IsDistinct (d ∷ seen) ds,
  )
]

unique_keeps :
    (x : String) (seen ds : List String) → has x seen ≡ false → has x (unique seen ds) ≡ has x ds
unique_keeps x seen [] h = rw (unique_nil seen) refl
unique_keeps x seen (d ∷ ds) h = elim (Bool-cases (d == x)) [
  | inl f ↦
      let same : d ≡ x = ground (arith, eq_iff d x) in
      rw (unique_new seen d ds (rw same h)) (ground arith)
  | inr f ↦ elim (Bool-cases (has d seen)) [
    | inl e ↦ let rest = unique_keeps x seen ds h in rw (unique_repeated seen d ds e) (ground arith)
    | inr e ↦
        let rest = unique_keeps x (d ∷ seen) ds (ground arith) in
        rw (unique_new seen d ds e) (ground arith)
  ]
]

first_domain : (e : Entry) → (rest : List String) × (entry_domains e ≡ e.primary_domain ∷ rest)
unfolding entry_domains all_domains unique
first_domain e = elim (Bool-cases e.wildcard) [
  | inl w ↦ (
    unique (e.primary_domain ∷ []) (e.secondary_domains ++ ("*." <> e.primary_domain) ∷ []),
    rw (w, if◌then◌else◌) refl,
  )
  | inr w ↦ (unique (e.primary_domain ∷ []) e.secondary_domains, rw (w, if◌then◌else◌) refl)
]

mem_of_has : (x : String) (ds : List String) → has x ds ≡ true → Memᴰ x ds
mem_of_has x [] h = absurd (ground arith)
mem_of_has x (d ∷ ds) h = elim (Bool-cases (d == x)) [
  | inl e ↦ Memᴰ.head ((eq_iff x d).0 (ground (arith, eq_iff d x, str_refl x)))
  | inr e ↦ Memᴰ.tail (mem_of_has x ds (ground arith))
]

has_of_mem : (x : String) (ds : List String) → Memᴰ x ds → has x ds ≡ true
has_of_mem x ds m = any_of_mem (λ s. s == x) ds x m (str_refl x)

-- A domain that the entry is for: the primary one, a secondary one, or the wildcard of the primary one.
pub data IsDomain (e : Entry) (x : String) : Type 0 where
  primary : x ≡ e.primary_domain → IsDomain e x
  secondary : Memᴰ x e.secondary_domains → IsDomain e x
  any_name : e.wildcard ≡ true → x ≡ "*." <> e.primary_domain → IsDomain e x

mem_append : (x : String) (xs ys : List String) → Memᴰ x (xs ++ ys) → Memᴰ x xs ⊎ Memᴰ x ys
mem_append x [] ys m = inr m
mem_append x (z ∷ xs) ys (Memᴰ.head e) = inl (Memᴰ.head e)
mem_append x (z ∷ xs) ys (Memᴰ.tail m) = elim (mem_append x xs ys m) [
  | inl p ↦ inl (Memᴰ.tail p)
  | inr p ↦ inr p
]

append-mem : (x : String) (xs ys : List String) → Memᴰ x xs ⊎ Memᴰ x ys → Memᴰ x (xs ++ ys)
append-mem x [] ys (inl m) = elim m [ ]
append-mem x [] ys (inr m) = m
append-mem x (z ∷ xs) ys (inl (Memᴰ.head e)) = Memᴰ.head e
append-mem x (z ∷ xs) ys (inl (Memᴰ.tail m)) = Memᴰ.tail (append-mem x xs ys (inl m))
append-mem x (z ∷ xs) ys (inr m) = Memᴰ.tail (append-mem x xs ys (inr m))

module _ (e : Entry) (x : String) where
  last-IsDomain : e.wildcard ≡ true → Memᴰ x (("*." <> e.primary_domain) ∷ []) → IsDomain e x
  last-IsDomain w (Memᴰ.head q) = any_name w q
  last-IsDomain w (Memᴰ.tail m) = elim m [ ]

  named-IsDomain : Memᴰ x (e.primary_domain ∷ e.secondary_domains) → IsDomain e x
  named-IsDomain (Memᴰ.head q) = primary q
  named-IsDomain (Memᴰ.tail m) = secondary m

  IsDomain-of : Memᴰ x (all_domains e) → IsDomain e x
  unfolding all_domains
  IsDomain-of m = elim (Bool-cases e.wildcard) [
    | inr w ↦ named-IsDomain (rw (w, if◌then◌else◌) at m)
    | inl w ↦
        let named = e.primary_domain ∷ e.secondary_domains in
        elim (mem_append x named (("*." <> e.primary_domain) ∷ []) (rw (w, if◌then◌else◌) at m)) [
          | inl n ↦ named-IsDomain n
          | inr l ↦ last-IsDomain w l
        ]
  ]

  named-all : Memᴰ x (e.primary_domain ∷ e.secondary_domains) → Memᴰ x (all_domains e)
  unfolding all_domains
  named-all m = elim (Bool-cases e.wildcard) [
    | inr w ↦ rw (w, if◌then◌else◌) m
    | inl w ↦ rw (w, if◌then◌else◌) (append-mem x _ _ (inl m))
  ]

  all-of : IsDomain e x → Memᴰ x (all_domains e)
  unfolding all_domains
  all-of (primary q) = named-all (Memᴰ.head q)
  all-of (secondary m) = named-all (Memᴰ.tail m)
  all-of (any_name w q) =
      rw (w, if◌then◌else◌)
        (append-mem x (e.primary_domain ∷ e.secondary_domains) _ (inr (Memᴰ.head q)))

-- The domains of an entry are the primary one first and no domain twice; they are exactly the primary
-- and the secondary domains, and for a wildcard entry `*.` and the primary domain.
pub entry_domains_lem :
    (e : Entry)
    → ((rest : List String) × (entry_domains e ≡ e.primary_domain ∷ rest))
      × IsDistinct (entry_domains e)
      × ((x : String) → Memᴰ x (entry_domains e) ↔ IsDomain e x)
unfolding entry_domains
entry_domains_lem e =
    let same : (x : String) → has x (entry_domains e) ≡ has x (all_domains e) =
      λ x. unique_keeps x [] (all_domains e) refl in
    (
      first_domain e,
      unique-IsDistinct [] (all_domains e),
      λ x. (
        λ m.
            IsDomain-of e x
              (mem_of_has x (all_domains e) (sym (same x) ∙ has_of_mem x (entry_domains e) m)),
        λ d. mem_of_has x (entry_domains e) (same x ∙ has_of_mem x (all_domains e) (all-of e x d)),
      ),
    )
