-- ===== src/Copy/Tests.antt =====
-- The theorems on src/server/states/copy.c at a concrete connection.
use socks5proxy.Prelude.{◌≡◌, refl, true, false, some, [], ◌∷◌, store, arith}
use socks5proxy.Buffer.{Buffer, pos, buffer_can_write}
use socks5proxy.Buffer.View.{Holds}
use socks5proxy.Metrics.{metrics_init}
use socks5proxy.Socket.{Recv}
use socks5proxy.Socks5.{SocksV5State}
use socks5proxy.Copy.{
  client, origin, CopySt, Copying, buffer_of, copy_of, interest, next_state, socksv5_copy_read,
  socksv5_copy_write, other,
}
use socks5proxy.Copy.Armed.{Transfer}
use socks5proxy.Copy.Read.{socksv5_copy_read-Transfer}
use socks5proxy.Copy.Write.{Ended, socksv5_copy_write-Transfer, socksv5_copy_read-Ended}

-- One byte waits in it.
abbrev one_waits : Buffer
one_waits = record { mem = store (λ _. 0) 0 (7 ∷ []); limit = 4; read = 0; write = 1 }

abbrev idle : CopySt
idle = record { interests = 1; item = some 1; shut = record { shut_rd = false; shut_wr = false } }

abbrev connection : Copying
connection = record {
  client_buffer = one_waits;
  origin_buffer = one_waits;
  client_copy = idle;
  origin_copy = idle;
  metrics = metrics_init;
}

one_waits-Holds : Holds one_waits (7 ∷ []) 4
one_waits-Holds = record {
  valid = record { ordered = omega arith; bounded = omega arith };
  bytes = refl;
  same_limit = refl;
}

reads_only : interest true false ≡ 1
unfolding interest
reads_only = refl

room : buffer_can_write one_waits ≡ true
unfolding buffer_can_write
room = refl

socksv5_copy_read-Transfer_example :
    (b : Buffer) × (c' : Copying) × (socksv5_copy_read client connection
        (Recv.received (8 ∷ 9 ∷ []))
      ≡ some (SocksV5State.copy, c'))
    × Holds b (7 ∷ 8 ∷ 9 ∷ []) 4
    × Transfer origin b one_waits c'
unfolding buffer_of other copy_of
socksv5_copy_read-Transfer_example =
    socksv5_copy_read-Transfer client connection (7 ∷ []) 8 (9 ∷ []) one_waits-Holds (omega arith)
      (1, refl) (1, refl)

socksv5_copy_write-Transfer_example :
    (b : Buffer) × (c' : Copying) × (socksv5_copy_write client connection (pos 1)
      ≡ some (next_state c', c'))
    × Holds b [] 4
    × Transfer client b one_waits c'
unfolding buffer_of other copy_of
socksv5_copy_write-Transfer_example =
    socksv5_copy_write-Transfer client connection 7 [] 0 one_waits-Holds (omega arith) (1, refl)
      (1, refl)

socksv5_copy_read-Ended_example :
    (c' : Copying) × (socksv5_copy_read client connection (Recv.received [])
      ≡ some (SocksV5State.copy, c'))
    × Ended client false true connection c'
unfolding buffer_of other copy_of interest
socksv5_copy_read-Ended_example =
    socksv5_copy_read-Ended client connection (7 ∷ []) true true false true false one_waits-Holds
      room (1, refl) (1, refl) reads_only reads_only
