-- ===== src/Store/Queries.antt =====
-- The queries and saves that the services share: a foreign key followed, a `save` with
-- `update_fields`, an insertion.
use trend_engine_backend.Base.{
  ℕ, Bool, ◌&&◌, [], ◌∷◌, ◌++◌, any, find?, update_where, ◌==◌, is_some, not, if◌then◌else◌, ok,
  err,
}
use trend_engine_backend.Store.Rows.{Output, OutputVersion, OutputState, Publication}
use trend_engine_backend.Store.Database.{
  Action, does_not_exist, integrity_error, lift_option, modify,
}

-- `version.output`: a foreign key is followed past the tenant filter.
abbrev pub load_output : ℕ → Action Output
load_output pk db = lift_option does_not_exist (find? (λ o. o.pk == pk) db.outputs) db

abbrev pub load_version : ℕ → Action OutputVersion
load_version pk db = lift_option does_not_exist (find? (λ v. v.pk == pk) db.versions) db

abbrev pub with_output_state : OutputState → Output → Output
with_output_state s o = record o { state = s }

abbrev pub with_version_state : OutputState → OutputVersion → OutputVersion
with_version_state s v = record v { state = s }

-- `output.state = s; output.save(update_fields=["state"])`
abbrev pub save_output_state : ℕ → OutputState → Action Unit
save_output_state pk s =
    modify
      λ db. record db { outputs = update_where (λ o. o.pk == pk) (with_output_state s) db.outputs }

abbrev pub save_version_state : ℕ → OutputState → Action Unit
save_version_state pk s =
    modify λ db. record db {
      versions = update_where (λ v. v.pk == pk) (with_version_state s) db.versions;
    }

-- `Publication.is_live`
abbrev pub is_live : Publication → Bool
is_live p = not (is_some p.unpublished_at)

-- A row that the index `uniq_live_publication_per_output` holds for one organisation and output.
abbrev pub is_live_for : ℕ → ℕ → Publication → Bool
is_live_for organization output p =
    is_live p && ((p.organization == organization) && (p.output == output))

-- An insertion under that index.
unfoldable pub insert_publication : Publication → Action Unit
insert_publication p db =
    if is_live p && any (is_live_for p.organization p.output) db.publications
    then err integrity_error
    else ok (tt, record db { publications = db.publications ++ p ∷ [] })

-- The constraint `uniq_version_per_output`.
abbrev pub has_number : ℕ → ℕ → OutputVersion → Bool
has_number output number v = (v.output == output) && (v.number == number)

unfoldable pub insert_version : OutputVersion → Action Unit
insert_version v db =
    if any (has_number v.output v.number) db.versions
    then err integrity_error
    else ok (tt, record db { versions = db.versions ++ v ∷ [] })
