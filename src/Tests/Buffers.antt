-- ===== src/Tests/Buffers.antt =====
-- The buffer at concrete inputs.
use iscsi.Prelude.{◌≡◌, refl, arith, [], ◌∷◌, List}
use iscsi.Prelude.Memory.{Memory, c_string}
use iscsi.Prelude.Outcome.{ok}
use iscsi.Buffer.Contents.{contents}
use iscsi.Buffer.Queue.{Call, receive, flush, run, spec_run, spec_call, Implements, run-Implements}
use iscsi.Tests.Samples.{empty_buffer, empty-IsIdle}

abbrev three : Memory
three = c_string (1 ∷ 2 ∷ 3 ∷ [])

abbrev calls : List Call
calls = receive three 3 ∷ flush 2 ∷ receive three 1 ∷ []

run-Implements_example :
    Implements (run empty_buffer calls) (spec_run (contents empty_buffer) calls)
run-Implements_example = run-Implements calls empty_buffer empty-IsIdle (omega arith)

queue_runs : spec_run [] calls ≡ ok (3 ∷ 1 ∷ [])
unfolding spec_run spec_call
queue_runs = refl
