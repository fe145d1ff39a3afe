-- ===== src/ObjectServer/Entries.antt =====
-- The maps of zbus/src/object_server/node.rs: lookups after insertions and removals.
use zbus.Prelude.{
  ℕ, ◌≡◌, ◌≢◌, refl, ap, ◌∙◌, inl, inr, false, none, some, List, [], ◌∷◌, ◌++◌, if◌then◌else◌,
  Bool-cases,
}
use zbus.Text.{eq_text, eq_text_iff, eq_text_refl}
use zbus.ObjectServer.{
  get, remove_key, Node, Children, no_child, child, get_entry, insert_entry, remove_entry,
}

pub eq_text_ne : (j k : List ℕ) → j ≢ k → eq_text j k ≡ false
eq_text_ne j k h = elim (Bool-cases (eq_text j k)) [
  | inl same ↦ absurd (h ((eq_text_iff j k).0 same))
  | inr apart ↦ apart
]

module _ {Iface : Type 0} where
  pub get_entry-insert_entry :
      (k : List ℕ) (new : Node Iface) (cs : Children Iface)
      → get_entry k (insert_entry k new cs) ≡ some new
  unfolding get_entry insert_entry
  get_entry-insert_entry k new no_child = rw (eq_text_refl k) refl
  get_entry-insert_entry k new (child j n rest) = elim (Bool-cases (eq_text j k)) [
    | inl same ↦ rw (same, eq_text_refl k) refl
    | inr apart ↦ rw (apart, apart) (get_entry-insert_entry k new rest)
  ]

  pub get_entry-insert_entry_ne :
      (k l : List ℕ) (new : Node Iface) (cs : Children Iface)
      → k ≢ l
      → get_entry l (insert_entry k new cs) ≡ get_entry l cs
  unfolding get_entry insert_entry
  get_entry-insert_entry_ne k l new no_child h = rw (eq_text_ne k l h) refl
  get_entry-insert_entry_ne k l new (child j n rest) h = elim (Bool-cases (eq_text j k)) [
    | inl same ↦
        let other = eq_text_ne k l h in
        let j_other : eq_text j l ≡ false =
          ap (λ j. eq_text j l) ((eq_text_iff j k).0 same) ∙ other in
        rw (same, other, j_other) refl
    | inr apart ↦ rw apart (
        ap (λ later. if eq_text j l then some n else later)
          (get_entry-insert_entry_ne k l new rest h))
  ]

  pub get_entry-remove_entry :
      (k : List ℕ) (cs : Children Iface) → get_entry k (remove_entry k cs) ≡ none
  unfolding get_entry remove_entry
  get_entry-remove_entry k no_child = refl
  get_entry-remove_entry k (child j n rest) = elim (Bool-cases (eq_text j k)) [
    | inl same ↦ rw same (get_entry-remove_entry k rest)
    | inr apart ↦ rw (apart, apart) (get_entry-remove_entry k rest)
  ]

  pub get_entry-remove_entry_ne :
      (k l : List ℕ) (cs : Children Iface)
      → k ≢ l
      → get_entry l (remove_entry k cs) ≡ get_entry l cs
  unfolding get_entry remove_entry
  get_entry-remove_entry_ne k l no_child h = refl
  get_entry-remove_entry_ne k l (child j n rest) h = elim (Bool-cases (eq_text j k)) [
    | inl same ↦
        let j_other : eq_text j l ≡ false =
          ap (λ j. eq_text j l) ((eq_text_iff j k).0 same) ∙ eq_text_ne k l h in
        rw (same, j_other) (get_entry-remove_entry_ne k l rest h)
    | inr apart ↦
        rw apart (
          ap (λ later. if eq_text j l then some n else later)
            (get_entry-remove_entry_ne k l rest h))
  ]

module _ {A : Type 0} where
  pub get-append :
      (k : List ℕ) (a : A) (is : List (List ℕ × A))
      → get k is ≡ none
      → get k (is ++ ((k, a) ∷ [])) ≡ some a
  get-append k a [] h = rw (eq_text_refl k) refl
  get-append k a ((j, b) ∷ is) h = elim (Bool-cases (eq_text j k)) [
    | inl same ↦ absurd (cc (rw same at h))
    | inr apart ↦ rw apart (get-append k a is (rw apart at h))
  ]

  pub get-append_ne :
      (k l : List ℕ) (a : A) (is : List (List ℕ × A))
      → k ≢ l
      → get l (is ++ ((k, a) ∷ [])) ≡ get l is
  get-append_ne k l a [] h = rw (eq_text_ne k l h) refl
  get-append_ne k l a ((j, b) ∷ is) h =
      ap (λ later. if eq_text j l then some b else later) (get-append_ne k l a is h)

  pub get-remove_key : (k : List ℕ) (is : List (List ℕ × A)) → get k (remove_key k is) ≡ none
  get-remove_key k [] = refl
  get-remove_key k ((j, b) ∷ is) = elim (Bool-cases (eq_text j k)) [
    | inl same ↦ rw same (get-remove_key k is)
    | inr apart ↦ rw (apart, apart) (get-remove_key k is)
  ]

  pub get-remove_key_ne :
      (k l : List ℕ) (is : List (List ℕ × A)) → k ≢ l → get l (remove_key k is) ≡ get l is
  get-remove_key_ne k l [] h = refl
  get-remove_key_ne k l ((j, b) ∷ is) h = elim (Bool-cases (eq_text j k)) [
    | inl same ↦
        let j_other : eq_text j l ≡ false =
          ap (λ j. eq_text j l) ((eq_text_iff j k).0 same) ∙ eq_text_ne k l h in
        rw (same, j_other) (get-remove_key_ne k l is h)
    | inr apart ↦
        rw apart (ap (λ later. if eq_text j l then some b else later) (get-remove_key_ne k l is h))
  ]
