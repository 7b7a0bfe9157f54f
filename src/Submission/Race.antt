-- ===== src/Submission/Race.antt =====
-- Two requests at once: `handleConfirm` reads `pending`, publishes and deletes in three steps, and
-- `sync.Map` makes each of them atomic, not the three together.
use obarena.Prelude.{ℕ, ◌≡◌, String, lookup, delete, some, none, List, [], ◌∷◌, Dict}
use obarena.Submission.{PendingSubmit, SubmissionCreated, submission_created}

-- Where a confirm of an id stands, with what it has loaded.
pub data Confirm : Type 0 where
  started : String → Confirm
  loaded : String → PendingSubmit → Confirm
  published : String → Confirm
  done : Confirm

pub record State : Type 0 where
  pub pending : Dict PendingSubmit
  pub topic : List SubmissionCreated
  pub one : Confirm
  pub two : Confirm

-- One step of one request.
pub data Advance
    : Confirm
      → Confirm
      → Dict PendingSubmit
      → Dict PendingSubmit
      → List SubmissionCreated
      → List SubmissionCreated
      → Type 0 where
  load :
      {pending : Dict PendingSubmit} {topic : List SubmissionCreated} (id : String)
      (p : PendingSubmit)
      → lookup id pending ≡ some p
      → Advance (started id) (loaded id p) pending pending topic topic
  miss :
      {pending : Dict PendingSubmit} {topic : List SubmissionCreated} (id : String)
      → lookup id pending ≡ none
      → Advance (started id) done pending pending topic topic
  publish :
      {pending : Dict PendingSubmit} {topic : List SubmissionCreated} (id : String)
      (p : PendingSubmit) (now : ℕ)
      → Advance
          (loaded id p)
          (published id)
          pending
          pending
          topic
          (submission_created id p now ∷ topic)
  refuse :
      {pending : Dict PendingSubmit} {topic : List SubmissionCreated} (id : String)
      (p : PendingSubmit)
      → Advance (loaded id p) done pending pending topic topic
  forget :
      {pending : Dict PendingSubmit} {topic : List SubmissionCreated} (id : String)
      → Advance (published id) done pending (delete id pending) topic topic

pub data Step : State → State → Type 0 where
  first :
      {one one' two : Confirm} {pending pending' : Dict PendingSubmit}
      {topic topic' : List SubmissionCreated}
      → Advance one one' pending pending' topic topic'
      → Step
          (record { pending = pending; topic = topic; one = one; two = two })
          (record { pending = pending'; topic = topic'; one = one'; two = two })
  second :
      {one two two' : Confirm} {pending pending' : Dict PendingSubmit}
      {topic topic' : List SubmissionCreated}
      → Advance two two' pending pending' topic topic'
      → Step
          (record { pending = pending; topic = topic; one = one; two = two })
          (record { pending = pending'; topic = topic'; one = one; two = two' })

pub data Reach (s : State) : State → Type 0 where
  here : Reach s s
  next : {t u : State} → Reach s t → Step t u → Reach s u

abbrev pub both_started : String → Dict PendingSubmit → State
both_started id pending = record {
  pending = pending;
  topic = [];
  one = started id;
  two = started id;
}

-- Whatever submission is pending: two confirms of it at once can put it on the topic twice.
pub published_twice :
    (id : String) (p : PendingSubmit) (pending : Dict PendingSubmit) (now later : ℕ)
    → lookup id pending ≡ some p
    → Reach (both_started id pending) (record {
      pending = delete id (delete id pending);
      topic = submission_created id p later ∷ submission_created id p now ∷ [];
      one = done;
      two = done;
    })
published_twice id p pending now later known =
    next
      (next
        (next
          (next (next (next here (first (load id p known))) (second (load id p known)))
            (first (publish id p now)))
          (second (publish id p later)))
        (first (forget id)))
      (second (forget id))
