-- ===== src/Files/RoundTrip.antt =====
-- `saveToFile` of pkg/clients call by call, and `loadFromFile` on what it wrote.
use suse_ai_up.Prelude.{
  String, true, false, List, [], ◌∷◌, Option, none, some, ◌≡◌, refl, ◌==◌, ap, Map, lookup, insert,
  values, IsMap, lookup-insert, Bool-cases, Option-cases, String-cases, inl, inr, arith, eq_iff,
  ◌⊎◌, ◌∙◌,
}
use suse_ai_up.Files.{
  FileStore, then_save, Disk, FileError, Write, written, stopped, Calls, Codec, write_and_rename,
  save_to_file, fill, load_from_file, no_directory, no_marshal, no_encrypt, no_write, no_rename,
}

abbrev pub map_list : {A B : Type 0} → (A → B) → List A → List B
map_list f [] = []
map_list f (x ∷ xs) = f x ∷ map_list f xs

abbrev pub map_option : {A B : Type 0} → (A → B) → Option A → Option B
map_option f none = none
map_option f (some x) = some (f x)

-- Reading gives back what was written, with each value as `kept` leaves it; a written file is not
-- empty; the key that decrypts is the one that encrypted.
pub record Reads {A D : Type 0} (codec : Codec A D) (kept : A → A) : Type 0 where
  pub parse :
      (xs : List A) (d : D)
      → codec.marshal xs ≡ some d
      → codec.unmarshal d ≡ some (map_list kept xs)
  pub key : (d e : D) → codec.encrypt d ≡ some e → codec.decrypt e ≡ some d
  pub full :
      (xs : List A) (d e : D)
      → codec.marshal xs ≡ some d
      → codec.encrypt d ≡ some e
      → codec.is_empty e ≡ false

-- What a save that ended as `r` has done to the disk.
abbrev pub Saved : {D : Type 0} → Disk D → D → Disk D × Option FileError → Type 0
Saved disk e r =
    (((f : FileError) × (r.1 ≡ some f)) × (r.0.file ≡ disk.file))
    ⊎ ((r.1 ≡ none) × (r.0.file ≡ some e) × (r.0.temp ≡ none))

Write-cases : {D : Type 0} (w : Write D) → (w ≡ written) ⊎ ((left : Option D) × (w ≡ stopped left))
Write-cases written = inl refl
Write-cases (stopped left) = inr (left, refl)

other_key :
    {A : Type 0} (j i : String) (x y : A) (m : Map A)
    → lookup j m ≡ none
    → lookup i m ≡ some y
    → lookup i ((j, x) ∷ m) ≡ some y
unfolding lookup
other_key j i x y m absent e = elim (String-cases j i) [
  | inl s ↦ ground (arith, e, absent, s)
  | inr (ne, s) ↦ rw s e
]

module _ {A D : Type 0} (codec : Codec A D) where
  write_and_rename-Saved :
      (calls : Calls D) (e : D) (disk : Disk D) → Saved disk e (write_and_rename codec calls e disk)
  unfolding write_and_rename
  write_and_rename-Saved calls e disk = elim (Write-cases calls.write) [
    | inr (left, w) ↦ rw (write_and_rename, w) (inl ((no_write, refl), refl))
    | inl w ↦ elim (Bool-cases calls.rename) [
      | inl r ↦ rw (write_and_rename, w, r) (inr (refl, refl, refl))
      | inr r ↦ rw (write_and_rename, w, r) (inl ((no_rename, refl), refl))
    ]
  ]

  -- Whatever fails in `saveToFile`, the file is as it was; when nothing fails, the file holds the
  -- encrypted JSON of all values, and there is no temporary file.
  pub save_to_file-Atomic :
      (calls : Calls D) (m : Map A) (disk : Disk D)
      → (((e : FileError) × ((save_to_file codec calls m disk).1 ≡ some e))
          × ((save_to_file codec calls m disk).0.file ≡ disk.file))
        ⊎ (((save_to_file codec calls m disk).1 ≡ none)
            × (d : D) × (e : D) × (codec.marshal (values m) ≡ some d)
            × (codec.encrypt d ≡ some e)
            × ((save_to_file codec calls m disk).0.file ≡ some e)
            × ((save_to_file codec calls m disk).0.temp ≡ none))
  unfolding save_to_file
  save_to_file-Atomic calls m disk = elim (Bool-cases calls.mkdir) [
    | inr k ↦ rw (save_to_file, k) (inl ((no_directory, refl), refl))
    | inl k ↦ elim (Option-cases (codec.marshal (values m))) [
      | inl p ↦ rw (save_to_file, k, p) (inl ((no_marshal, refl), refl))
      | inr (d, p) ↦ elim (Option-cases (codec.encrypt d)) [
        | inl q ↦ rw (save_to_file, k, p, q) (inl ((no_encrypt, refl), refl))
        | inr (e, q) ↦
            rw (save_to_file, k, p, q)
              (elim (write_and_rename-Saved calls e disk) [
                | inl h ↦ inl h
                | inr (n, f, t) ↦ inr (n, d, e, refl, q, f, t)
              ])
      ]
    ]
  ]

  module _ (key : A → String) (kept : A → A) (same_key : (x : A) → key (kept x) ≡ key x) where
    -- The values of a map in which each stands under its key are put back under those keys.
    fill-lookup :
        (k : String) (m n : Map A)
        → IsMap m
        → ((j : String) (x : A) → lookup j m ≡ some x → key x ≡ j)
        → lookup k (fill codec key (map_list kept (values m)) n)
          ≡ (elim (lookup k m) [ none ↦ lookup k n | some x ↦ some (kept x) ])
    unfolding fill lookup values
    fill-lookup k [] n h filed = refl
    fill-lookup k ((j, x) ∷ m) n (absent, h) filed =
        let own : key (kept x) ≡ j = same_key x ∙ filed j x (ground (arith, eq_iff j j)) in
        let rest =
          fill-lookup k m (insert j (kept x) n) h
            (λ i y e. filed i y (other_key j i x y m absent e)) in
        ap (λ i. lookup k (fill codec key (map_list kept (values m)) (insert i (kept x) n))) own
        ∙ (elim (String-cases j k) [
          | inl e ↦
              let same : (j == k) ≡ true = (eq_iff j k).1 e in
              let missing : lookup k m ≡ none = rw (← e) absent in
              rest ∙ rw (missing, lookup-insert j k (kept x) n, same) refl
          | inr (ne, e) ↦ elim (Option-cases (lookup k m)) [
            | inl missing ↦ rest ∙ rw (missing, lookup-insert j k (kept x) n, e) refl
            | inr (y, found) ↦ rest ∙ rw (found, e) refl
          ]
        ])

    -- A save without an error, then a load into an empty map: for a map in which each value stands
    -- under its key, no key twice, a codec that gives back what it was given as `kept` leaves it,
    -- keys that `kept` does not change, and a file that can be read, the load has no error, and
    -- under each key there is what was there, as `kept` leaves it.
    pub load_from_file-save_to_file :
        Reads codec kept
        → (calls later : Calls D) (m : Map A) (disk : Disk D) (k : String) → IsMap m
        → ((j : String) (x : A) → lookup j m ≡ some x → key x ≡ j)
        → later.read ≡ true
        → (save_to_file codec calls m disk).1 ≡ none
        → ((load_from_file codec key later (save_to_file codec calls m disk).0 []).1 ≡ none)
          × (lookup k (load_from_file codec key later (save_to_file codec calls m disk).0 []).0
              ≡ map_option kept (lookup k m))
    unfolding load_from_file lookup
    load_from_file-save_to_file reads calls later m disk k h filed r ok =
        elim (save_to_file-Atomic calls m disk) [
          | inl ((e, f), _) ↦ ground (arith, e, f)
          | inr (_, d, e, p, q, f, _) ↦
              rw
                (
                  load_from_file,
                  f,
                  r,
                  reads.full (values m) d e p q,
                  reads.key d e q,
                  reads.parse (values m) d p,
                )
                (
                  refl,
                  fill-lookup k m [] h filed ∙ elim (Option-cases (lookup k m)) [
                    | inl e ↦ rw e refl
                    | inr (y, e) ↦ rw e refl
                  ],
                )
        ]

module _ {A D E : Type 0} (failed : E) (codec : Codec A D) (calls : Calls D) where
  -- A write without an error has changed the map and saved it.
  pub then_save-none :
      (r : Map A × Option E) (s : FileStore A D)
      → (then_save failed codec calls r s).1 ≡ none
      → (r.1 ≡ none)
        × ((save_to_file codec calls r.0 s.disk).1 ≡ none)
        × ((then_save failed codec calls r s).0
            ≡ record { entries = r.0; disk = (save_to_file codec calls r.0 s.disk).0 })
  unfolding then_save
  then_save-none (m, some e) s h = ground arith
  then_save-none (m, none) s h = elim (Option-cases (save_to_file codec calls m s.disk).1) [
    | inl q ↦ (refl, q, refl)
    | inr (e, q) ↦ ground (arith, h, q)
  ]
