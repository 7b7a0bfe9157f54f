-- ===== src/Submission/Pending.antt =====
-- A submission from its init to its event on the topic.
use Prim.Native.String.{len}
use obarena.Prelude.{
  ℕ, ◌≤◌, ◌≡◌, refl, ap, arith, String, str_eq, eq_iff, Bool, true, false, lookup, lookup-insert,
  lookup-delete, none, some, Option, insert, delete,
}
use obarena.Submission.{
  Handler, PendingSubmit, SubmitInitRequest, SubmitInitResponse, SubmissionCreated, Response,
  failure, initiated, confirmed, allowed_language, matches_team_name, max_team_name_len,
  handle_submit_init, handle_confirm, submission_created, artifact_path_of,
}

-- What `handleSubmitInit` checks.
pub record IsChecked (p : PendingSubmit) : Type 0 where
  pub language : allowed_language p.language ≡ true
  pub named : str_eq p.team_name "" ≡ false
  pub short : len p.team_name ≤ max_team_name_len
  pub spelled : matches_team_name p.team_name ≡ true

pub record IsValid (h : Handler) : Type 0 where
  pub checked : (id : String) (p : PendingSubmit) → lookup id h.pending ≡ some p → IsChecked p

pub init-IsValid :
    (uuid : String) (presign : String → Option String) (now : ℕ) (req : Option SubmitInitRequest)
    (h : Handler)
    → IsValid h
    → IsValid (handle_submit_init uuid presign now req h).1
unfolding handle_submit_init
init-IsValid uuid presign now none h v = v
init-IsValid uuid presign now (some req) h v = record {
  checked = λ id p e.
      let sub : PendingSubmit = record { language = req.language; team_name = req.team_name } in
      ground (arith, lookup-insert uuid id sub h.pending, v.checked id p);
}

pub confirm-IsValid :
    (publish : SubmissionCreated → Bool) (now : ℕ) (id : String) (h : Handler)
    → IsValid h
    → IsValid (handle_confirm publish now id h).2
unfolding handle_confirm
confirm-IsValid publish now id h v = record {
  checked = λ k p e. ground (arith, lookup-delete id k h.pending, v.checked k p);
}

abbrev pub submitted : SubmitInitRequest → PendingSubmit
submitted req = record { language = req.language; team_name = req.team_name }

abbrev pub with_pending : String → SubmitInitRequest → Handler → Handler
with_pending uuid req h = record h { pending = insert uuid (submitted req) h.pending }

-- What an init that succeeds returns and stores.
init-accepted :
    (uuid : String) (presign : String → Option String) (now : ℕ) (req : SubmitInitRequest)
    (h : Handler) (status : ℕ) (resp : SubmitInitResponse)
    → (handle_submit_init uuid presign now (some req) h).0 ≡ initiated status resp
    → (resp.submission_id ≡ uuid)
      × (resp.artifact_key ≡ artifact_path_of uuid)
      × ((handle_submit_init uuid presign now (some req) h).1 ≡ with_pending uuid req h)
unfolding handle_submit_init
init-accepted uuid presign now req h status resp accepted = ground arith

-- The first confirm of a pending submission, and the second.
confirm-pending :
    (publish : SubmissionCreated → Bool) (later : ℕ) (id : String) (p : PendingSubmit) (h : Handler)
    → str_eq id "" ≡ false
    → publish (submission_created id p later) ≡ true
    → lookup id h.pending ≡ some p
    → (handle_confirm publish later id h) ≡ (
      confirmed 202 id,
      some (submission_created id p later),
      record h { pending = delete id h.pending },
    )
unfolding handle_confirm
confirm-pending publish later id p h named taken pending =
    rw (named, pending, handle_confirm, taken) refl

confirm-unknown :
    (publish : SubmissionCreated → Bool) (later : ℕ) (id : String) (h : Handler)
    → str_eq id "" ≡ false
    → lookup id h.pending ≡ none
    → (handle_confirm publish later id h) ≡ (failure 404 "submission not found or expired", none, h)
unfolding handle_confirm
confirm-unknown publish later id h named unknown = rw (named, unknown, handle_confirm) refl

-- What was initiated is confirmed as it was initiated, and once: if the broker takes the event, it
-- has the language, the team and the artifact of the init, and a second confirm finds nothing.
pub confirm-init :
    (uuid : String) (presign : String → Option String) (now later : ℕ) (req : SubmitInitRequest)
    (h : Handler) (publish : SubmissionCreated → Bool) (status : ℕ) (resp : SubmitInitResponse)
    → str_eq uuid "" ≡ false
    → publish (submission_created uuid (submitted req) later) ≡ true
    → (handle_submit_init uuid presign now (some req) h).0 ≡ initiated status resp
    → let h' = (handle_submit_init uuid presign now (some req) h).1 in
      let first = handle_confirm publish later resp.submission_id h' in
      (first.0 ≡ confirmed 202 uuid)
      × (first.1
          ≡ some (record {
            submission_id = uuid;
            language = req.language;
            team_name = req.team_name;
            artifact_path = resp.artifact_key;
            created_at = later;
          }))
      × ((handle_confirm publish later resp.submission_id first.2).0
          ≡ failure 404 "submission not found or expired")
confirm-init uuid presign now later req h publish status resp named taken accepted =
    let (id, key, h') = init-accepted uuid presign now req h status resp accepted in
    let there : lookup uuid (with_pending uuid req h).pending ≡ some (submitted req) =
      rw (lookup-insert uuid uuid (submitted req) h.pending) (ground (arith, eq_iff uuid uuid)) in
    let first =
      confirm-pending publish later uuid (submitted req) (with_pending uuid req h) named taken
        there in
    let gone : lookup uuid (delete uuid (with_pending uuid req h).pending) ≡ none =
      rw (lookup-delete uuid uuid (with_pending uuid req h).pending)
        (ground (arith, eq_iff uuid uuid)) in
    rw (id, key, h', first)
      (
        refl,
        refl,
        ap (λ (r : Response × Option SubmissionCreated × Handler). r.0)
            (confirm-unknown publish later uuid
              (record { pending = delete uuid (with_pending uuid req h).pending }) named gone),
      )
