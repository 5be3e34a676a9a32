-- ===== src/Connection/Tests.antt =====
-- A connection that opens, and the theorem at a concrete input.
use nju_networking_lab.Base.{ℕ, ◌≡◌, refl, arith, none, some}
use nju_networking_lab.Sender.{fill_window}
use nju_networking_lab.Connection.{TcpConfig, TcpConnection, fresh, connect}
use nju_networking_lab.Connection.Parts.{Safe}
use nju_networking_lab.Connection.Everything.{connects, ticks, handle, here, next, never_fails}

-- The stream 0, 1, 2, ...
abbrev counting : ℕ → ℕ
counting i = i

abbrev config : TcpConfig
config = record { rt_timeout = 1000; recv_capacity = 64000; send_capacity = 64000; isn = 7 }

-- Its SYN has been sent.
abbrev opening : TcpConnection
opening = elim (connect (fresh config)) [ none ↦ fresh config | some c ↦ c ]

opens : handle connects (fresh config) ≡ some opening
unfolding handle connect fill_window
opens = refl

never_fails_example : Safe counting 99 (handle (ticks 1000) opening)
never_fails_example =
    never_fails counting 99 config opening (ticks 1000) (omega arith) (omega arith) (omega arith)
      (next connects here tt opens) tt
