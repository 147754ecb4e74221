-- ===== src/Routes/Headers.antt =====
-- What is left of the headers of a plugin's response (internal/service/dynamic_router.go).
use suse_ai_up.Prelude.{
  String, ◌==◌, List, [], ◌∷◌, ◌++◌, none, some, ◌≡◌, refl, ◌∙◌, if◌then◌else◌, Map, lookup,
  lookup-insert, lookup-delete, Bool-cases, inl, inr, eq_iff,
}
use suse_ai_up.Routes.{put_header, put_values}

-- Of the values of a header, `proxyToService` passes on the last one alone; when the last one is
-- empty, the header is removed.
pub lookup-put_values :
    (key last : String) (front : List String) (m : Map (List String))
    → lookup key (put_values key (front ++ last ∷ []) m)
      ≡ (if last == "" then none else some (last ∷ []))
unfolding put_values put_header
lookup-put_values key last [] m = elim (Bool-cases (last == "")) [
  | inl e ↦
      rw (put_values, put_header, e) (lookup-delete key key m ∙ rw ((eq_iff key key).1 refl) refl)
  | inr e ↦
      rw (put_values, put_header, e)
        (lookup-insert key key (last ∷ []) m ∙ rw ((eq_iff key key).1 refl) refl)
]
lookup-put_values key last (v ∷ front) m = lookup-put_values key last front (put_header key v m)
