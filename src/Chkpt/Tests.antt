-- ===== src/Chkpt/Tests.antt =====
-- A process that commits while three descriptors are free.
use persimmon.Base.{ℕ, ◌+◌, none, Memory}
use persimmon.Chkpt.{Process, Images}

abbrev fresh : Process
fresh = record { memory = λ x. 0; seq = 0; parent_images = none; open_fds = 5 }

abbrev no_images : Images
no_images k = none

-- Each round adds its number to all bytes.
abbrev work : ℕ → Memory → Memory
work n m x = m x + n
