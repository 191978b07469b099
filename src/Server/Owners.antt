-- ===== src/Server/Owners.antt =====
-- The owner check of a kill over HTTP: the header is trimmed, the owner of the task is not.
use execgo_runtime.Base.{
  String, ◌≡◌, ◌≢◌, refl, sym, ap, ◌∙◌, Bool-cases, Option, Option-cases, none, some, inl, inr,
  str_eq, eq_iff, str_append,
}
use execgo_runtime.Base.Text.{trim, is_empty}
use execgo_runtime.Base.Trim.{trim-twice}
use execgo_runtime.Errors.{err, permission_denied, into_response}
use execgo_runtime.Repo.Rows.{TaskRecord, Store, find_row}
use execgo_runtime.Runtime.Kill
use execgo_runtime.Runtime.Kill.{owner_of, check_owner}
use execgo_runtime.Runtime.Stopping.{get_task-found}
use execgo_runtime.Server.{Server, kill_task, caller_owner, kill, handle}

caller_owner-trimmed :
    (header : Option String) (name : String) → caller_owner header ≡ some name → trim name ≡ name
unfolding caller_owner
caller_owner-trimmed none name e = cc
caller_owner-trimmed (some h) name e = elim (Bool-cases (is_empty (trim h))) [
  | inl blank ↦ let e' = rw (blank, caller_owner) at e in cc
  | inr filled ↦
      let e' = rw (filled, caller_owner) at e in
      let same : trim h ≡ name = cc in ap trim (sym same) ∙ trim-twice h ∙ same
]

check_owner-padded :
    (row : TaskRecord) (owner : String) (header : Option String)
    → owner_of row ≡ some owner
    → trim owner ≢ owner
    → check_owner row (caller_owner header)
      ≡ err (permission_denied (str_append "kill requires owner '" (str_append owner "'")))
unfolding check_owner
check_owner-padded row owner header owned padded = elim (Option-cases (caller_owner header)) [
  | inl e ↦ rw (owned, check_owner, e) refl
  | inr (name, e) ↦ elim (Bool-cases (str_eq name owner)) [
    | inr other ↦ rw (owned, check_owner, e, other) refl
    | inl equal ↦
        let same : name ≡ owner = (eq_iff name owner).0 equal in
        absurd (padded (ap trim (sym same) ∙ caller_owner-trimmed header name e ∙ same))
  ]
]

-- A task whose owner has white space at an end cannot be killed over HTTP: whatever header the request
-- has, it is answered with status 403, and the tables stay as they were.
pub kill_padded_owner :
    (server : Server) (s : Store) (id : String) (row : TaskRecord) (owner : String)
    (header : Option String)
    → find_row id s.tasks ≡ some row
    → owner_of row ≡ some owner
    → trim owner ≢ owner
    → ((handle server (kill_task id header) s).0 ≡ s)
      × ((handle server (kill_task id header) s).1.0 ≡ 403)
unfolding handle kill Kill.kill_task into_response
kill_padded_owner server s id row owner header found owned padded =
    let denied = check_owner-padded row owner header owned padded in
    let present = get_task-found id s row found in
    (
      rw (handle, kill, Kill.kill_task, present, denied) refl,
      rw (handle, kill, Kill.kill_task, present, denied) refl,
    )
