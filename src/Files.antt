-- ===== src/Files.antt =====
-- The JSON files that the stores of pkg/clients keep (`saveToFile` and `loadFromFile`, which
-- user_group_store.go and adapter_group_assignment_store.go write out for users, for groups and
-- for assignments). What each call of the operating system, of encoding/json and of
-- `StorageCrypto` does is a parameter.
pub mod Crypto
pub mod RoundTrip
pub mod Sealed
use suse_ai_up.Prelude.{
  String, Bool, true, false, not, List, [], ◌∷◌, Option, none, some, if◌then◌else◌, Map, insert,
  values,
}

-- The file and its `.tmp` neighbour; none where there is no such file.
pub record Disk (D : Type 0) : Type 0 where
  pub file : Option D
  pub temp : Option D

pub data FileError : Type 0 where
  no_directory no_marshal no_encrypt no_write no_rename : FileError
  no_read no_decrypt no_parse : FileError

-- What `os.WriteFile` does: it fails and leaves something or nothing, or it writes all.
pub data Write (D : Type 0) : Type 0 where
  written : Write D
  stopped : Option D → Write D

-- What the calls of the operating system do in one operation.
pub record Calls (D : Type 0) : Type 0 where
  pub mkdir : Bool
  pub write : Write D
  pub rename : Bool
  pub read : Bool

-- `json` and the key of the store; `encrypt` and `decrypt` are the identity where `crypto` is nil.
pub record Codec (A D : Type 0) : Type 0 where
  pub marshal : List A → Option D
  pub unmarshal : D → Option (List A)
  pub encrypt : D → Option D
  pub decrypt : D → Option D
  pub is_empty : D → Bool

module _ {A D : Type 0} (codec : Codec A D) where
  -- `os.WriteFile(tempFile, bytes)`, then `os.Rename(tempFile, filePath)`.
  unfoldable pub write_and_rename : Calls D → D → Disk D → Disk D × Option FileError
  write_and_rename calls bytes disk = elim calls.write [
    | stopped left ↦ (record disk { temp = left }, some no_write)
    | written ↦
        if calls.rename
        then (record { file = some bytes; temp = none }, none)
        else (record disk { temp = some bytes }, some no_rename)
  ]

  unfoldable pub save_to_file : Calls D → Map A → Disk D → Disk D × Option FileError
  save_to_file calls m disk =
      if calls.mkdir
      then elim (codec.marshal (values m)) [
        | none ↦ (disk, some no_marshal)
        | some bytes ↦ elim (codec.encrypt bytes) [
          | none ↦ (disk, some no_encrypt)
          | some encrypted ↦ write_and_rename calls encrypted disk
        ]
      ]
      else (disk, some no_directory)

  -- The loop that fills the map.
  unfoldable pub fill : (key : A → String) → List A → Map A → Map A
  fill key [] m = m
  fill key (x ∷ xs) m = fill key xs (insert (key x) x m)

  unfoldable pub load_from_file :
      (key : A → String) → Calls D → Disk D → Map A → Map A × Option FileError
  load_from_file key calls disk m = elim disk.file [
    | none ↦ (m, none)
    | some bytes ↦
        if not calls.read
        then (m, some no_read)
        else if codec.is_empty bytes
        then (m, none)
        else elim (codec.decrypt bytes) [
          | none ↦ (m, some no_decrypt)
          | some decrypted ↦ elim (codec.unmarshal decrypted) [
            | none ↦ (m, some no_parse)
            | some xs ↦ (fill key xs m, none)
          ]
        ]
  ]

-- The map of a store, and the files it is written to.
pub record FileStore (A D : Type 0) : Type 0 where
  pub entries : Map A
  pub disk : Disk D

module _ {A D : Type 0} where
  -- `return s.saveToFile()` where the map was changed, and the error where a guard returned it;
  -- `failed` is how the store reports a save that failed.
  unfoldable pub then_save :
      {E : Type 0}
      → E
      → Codec A D
      → Calls D
      → Map A × Option E
      → FileStore A D
      → FileStore A D × Option E
  then_save failed codec calls (m, some e) s = (s, some e)
  then_save failed codec calls (m, none) s =
      let (disk, e) = save_to_file codec calls m s.disk in
      (record { entries = m; disk = disk }, elim e [ none ↦ none | some _ ↦ some failed ])

  -- The store that a start of the program makes: a load that fails is only logged.
  unfoldable pub new_file_store : (A → String) → Codec A D → Calls D → Disk D → FileStore A D
  new_file_store key codec calls disk = record {
    entries = (load_from_file codec key calls disk []).0;
    disk = disk;
  }
