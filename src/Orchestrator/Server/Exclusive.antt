-- ===== src/Orchestrator/Server/Exclusive.antt =====
-- How many tests of a submission run, in services/bot-orchestrator.
use obarena.Prelude.{
  ◌≤◌, ◌≡◌, refl, arith, String, str_eq, eq_iff, Bool-cases, inl, inr, true, false, if◌then◌else◌,
  lookup, lookup-insert, lookup-delete, List, [], ◌∷◌,
}
use obarena.Orchestrator.Server.{
  Server, new_server, is_active, start, finish, Body, broken, no_body, decoded, with_defaults,
  empty_event, try_start, handle_body, run_handler, Event, requests, delivers, finishes, step, run,
}

-- A submission is active exactly while one call of `Handle` is running for it.
pub record IsExclusive (s : Server) : Type 0 where
  pub matches : (id : String) → s.running id ≡ (if is_active id s then 1 else 0)

start-IsExclusive :
    (id : String) (s : Server) → is_active id s ≡ false → IsExclusive s → IsExclusive (start id s)
unfolding is_active
start-IsExclusive id s idle v = record {
  matches = λ k.
      ground (
        arith,
        idle,
        v.matches k,
        v.matches id,
        lookup-insert id k true s.active_tests,
        eq_iff id k,
      );
}

finish-IsExclusive : (id : String) (s : Server) → IsExclusive s → IsExclusive (finish id s)
unfolding finish is_active
finish-IsExclusive id s v = record {
  matches = λ k.
      ground (arith, v.matches k, v.matches id, lookup-delete id k s.active_tests, eq_iff id k);
}

try_start-IsExclusive : (id : String) (s : Server) → IsExclusive s → IsExclusive (try_start id s).1
unfolding try_start
try_start-IsExclusive id s v = elim (Bool-cases (is_active id s)) [
  | inl busy ↦ rw (busy, try_start) v
  | inr idle ↦ rw (idle, try_start) (start-IsExclusive id s idle v)
]

handle_body-IsExclusive : (b : Body) (s : Server) → IsExclusive s → IsExclusive (handle_body b s).1
unfolding handle_body
handle_body-IsExclusive broken s v = v
handle_body-IsExclusive no_body s v =
    try_start-IsExclusive (with_defaults empty_event).submission_id s v
handle_body-IsExclusive (decoded e) s v = try_start-IsExclusive (with_defaults e).submission_id s v

step-IsExclusive : (e : Event) (s : Server) → IsExclusive s → IsExclusive (step e s)
unfolding step run_handler
step-IsExclusive (requests r) s v = elim (Bool-cases (str_eq r.method "POST")) [
  | inl post ↦ rw (post, step, run_handler) (handle_body-IsExclusive r.body s v)
  | inr other ↦ rw (other, step, run_handler) v
]
step-IsExclusive (delivers e) s v = try_start-IsExclusive e.submission_id s v
step-IsExclusive (finishes id) s v = finish-IsExclusive id s v

run-IsExclusive : (es : List Event) (s : Server) → IsExclusive s → IsExclusive (run es s)
unfolding run
run-IsExclusive [] s v = v
run-IsExclusive (e ∷ es) s v = run-IsExclusive es (step e s) (step-IsExclusive e s v)

-- Whatever requests and records come, and in whatever order tests end: a submission has one test
-- at most, and has one exactly while it is active.
pub run-running :
    (es : List Event) (id : String)
    → ((run es new_server).running id ≤ 1)
      × ((run es new_server).running id ≡ (if is_active id (run es new_server) then 1 else 0))
run-running es id =
    let v =
      run-IsExclusive es new_server
        (unfold new_server is_active lookup in record { matches = λ k. refl }) in
    (ground (arith, v.matches id), v.matches id)
