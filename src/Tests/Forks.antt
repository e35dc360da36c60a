-- ===== src/Tests/Forks.antt =====
-- The start of the program.
use iscsi.Prelude.{◌≡◌, refl, [], none}
use iscsi.Buffer.{minus_one}
use iscsi.Server.Main.{Life, main_start}
use iscsi.Tests.Samples.{session, target}

abbrev life : Life
life = record { session = session; target = target; accepted = [] }

no_socket : main_start minus_one life ≡ none
unfolding main_start
no_socket = refl
