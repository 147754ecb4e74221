-- ===== src/Tokens/Files.antt =====
-- `FileUserAdapterTokenStore` of pkg/clients/user_adapter_token_store.go: each write is that of the
-- store in memory and then a save. The tokens are not encrypted.
use suse_ai_up.Prelude.{
  String, ℕ, Option, none, some, Map, lookup, insert, IsMap, insert-IsMap, ◌≡◌, refl, true, ◌∙◌,
  List, Bool, Option-cases, inl, inr,
}
use suse_ai_up.Tokens.{
  UserAdapterToken, TokenError, save_failed, make_key, create_token, update_token, delete_token,
  get_token,
}
use suse_ai_up.Users.Instances.{AllFiled, insert-AllFiled}
use suse_ai_up.Files.{FileStore, then_save, new_file_store, Disk, Calls, Codec}
use suse_ai_up.Files.RoundTrip.{Reads, map_option, load_from_file-save_to_file, then_save-none}

abbrev pub own_key : UserAdapterToken → String
own_key t = make_key t.user_id t.adapter_id

-- `encoding/json` alone.
abbrev pub plain_codec :
    {D : Type 0}
    → (List UserAdapterToken → Option D)
    → (D → Option (List UserAdapterToken))
    → (D → Bool)
    → Codec UserAdapterToken D
plain_codec marshal unmarshal is_empty = record {
  marshal = marshal;
  unmarshal = unmarshal;
  encrypt = λ d. some d;
  decrypt = λ d. some d;
  is_empty = is_empty;
}

module _ {D : Type 0} (marshal : List UserAdapterToken → Option D)
    (unmarshal : D → Option (List UserAdapterToken)) (is_empty : D → Bool) where
  abbrev codec : Codec UserAdapterToken D
  codec = plain_codec marshal unmarshal is_empty

  unfoldable pub new_file_token_store : Calls D → Disk D → FileStore UserAdapterToken D
  new_file_token_store calls disk =
      new_file_store own_key (plain_codec marshal unmarshal is_empty) calls disk

  unfoldable pub create_on_file :
      Calls D
      → ℕ
      → UserAdapterToken
      → FileStore UserAdapterToken D
      → FileStore UserAdapterToken D × Option TokenError
  create_on_file calls now t s =
      then_save save_failed (plain_codec marshal unmarshal is_empty) calls
        (create_token now t s.entries) s

  unfoldable pub update_on_file :
      Calls D
      → UserAdapterToken
      → FileStore UserAdapterToken D
      → FileStore UserAdapterToken D × Option TokenError
  update_on_file calls t s =
      then_save save_failed (plain_codec marshal unmarshal is_empty) calls
        (update_token t s.entries) s

  unfoldable pub delete_on_file :
      Calls D
      → (user_id adapter_id : String) → FileStore UserAdapterToken D
      → FileStore UserAdapterToken D × Option TokenError
  delete_on_file calls user_id adapter_id s =
      then_save save_failed (plain_codec marshal unmarshal is_empty) calls
        (delete_token user_id adapter_id s.entries) s

  create_token-insert :
      (now : ℕ) (t : UserAdapterToken) (s : Map UserAdapterToken)
      → (create_token now t s).1 ≡ none
      → (create_token now t s).0 ≡ insert (own_key t) (record t { created_at = now }) s
  unfolding create_token
  create_token-insert now t s e = elim (Option-cases (lookup (own_key t) s)) [
    | inl n ↦ rw (create_token, n) refl
    | inr (v, n) ↦ absurd (cc (rw (create_token, n) at e))
  ]

  same_token :
      (now : ℕ) (u a : String) (m n : Map UserAdapterToken)
      → lookup (make_key u a) m ≡ lookup (make_key u a) n
      → get_token now u a m ≡ get_token now u a n
  unfolding get_token
  same_token now u a m n e = rw (get_token, e) refl

  kept_whole : (x : Option UserAdapterToken) → map_option (λ t. t) x ≡ x
  kept_whole none = refl
  kept_whole (some t) = refl

  -- When `CreateToken` of the store on file reports no error, then a restart that can read the
  -- file answers every `GetToken` as the store did, for an encoding that gives back what it was
  -- given and a map in which each token stands under its own key.
  pub get_token-restarted :
      Reads (plain_codec marshal unmarshal is_empty) (λ t. t)
      → (calls later : Calls D) (made now : ℕ) (t : UserAdapterToken)
        (s : FileStore UserAdapterToken D) (u a : String)
      → IsMap s.entries
      → AllFiled UserAdapterToken own_key s.entries
      → later.read ≡ true
      → (create_on_file calls made t s).1 ≡ none
      → get_token now u a
          (new_file_token_store later (create_on_file calls made t s).0.disk).entries
        ≡ get_token now u a (create_on_file calls made t s).0.entries
  unfolding new_file_token_store new_file_store create_on_file
  get_token-restarted reads calls later made now t s u a m filed r done =
      let (created, saved, after) =
        then_save-none save_failed codec calls (create_token made t s.entries) s done in
      let new = insert (own_key t) (record t { created_at = made }) s.entries in
      let entries = create_token-insert made t s.entries created in
      let (_, same) =
        load_from_file-save_to_file codec own_key (λ t. t) (λ t. refl) reads calls later new s.disk
          (make_key u a) (insert-IsMap (own_key t) (record t { created_at = made }) s.entries m)
          (insert-AllFiled UserAdapterToken own_key s.entries (record t { created_at = made })
            filed)
          r (rw entries at saved) in
      rw (after, entries) (same_token now u a _ new (same ∙ kept_whole _))
