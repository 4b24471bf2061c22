-- ===== src/Background/Tests.antt =====
-- The background process at one command, and a crash of it.
use persimmon.Base.{ℕ, Bool, true, false, none, List, [], ltb, ◌==◌, if◌then◌else◌, Memory}
use persimmon.PsmLog.{Psm, initial}
use persimmon.PsmLog.Stored.{Stored}
use persimmon.UndoLog.{UndoLog, zeroed}
use persimmon.UndoLog
use persimmon.UndoLog.Run.{Process}
use persimmon.RegionManager.Table.{no_regions}
use persimmon.Instrument.{Client}
use persimmon.Background.{ConsumeFunc}

abbrev first_page : ℕ → Bool
first_page x = ltb x 4096

abbrev blank_memory : Memory
blank_memory x = 0

abbrev blank_log : UndoLog
blank_log = record { log = λ i. zeroed; len = 0; logged_addrs_hash = λ slot. 0; fresh_regions = [] }

abbrev idle_client : Client
idle_client = record {
  ul = blank_log;
  mrm = no_regions;
  directory = record { new_table = none; current_table = none };
  region_table_modified = false;
  should_commit = true;
  last_syscall = none;
  view = blank_memory;
  image = blank_memory;
}

-- A command of three bytes that only reads.
abbrev read_command : ConsumeFunc
read_command view c = (3, c)

abbrev read_only : List ℕ → Client → Client
read_only bs c = c

abbrev one_command : Psm
one_command = record initial { buf = λ x. if x == 0 then 1 else if x == 1 then 5 else 7 }

abbrev ready_client : Client
ready_client = record idle_client { should_commit = false }

abbrev idle_process : Process
idle_process = record {
  kept = first_page;
  mapped = first_page;
  committed = blank_memory;
  view = blank_memory;
  image = blank_memory;
  ul = blank_log;
}
