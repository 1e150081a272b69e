-- ===== src/Socks5/Nio/Table.antt =====
-- `socks5States` of src/server/socks5nio.c, as a machine of src/shared/stm.c over connections.
use socks5proxy.Prelude.{ℕ, zero, suc, Bool, ◌||◌, Option, none, some, ◌==◌, ◌>>=◌}
use socks5proxy.Stm.{
  StateDefinition, StateMachine, stm_init, stm_handler_read, stm_handler_write, stm_handler_block,
}
use socks5proxy.Stm.Driver.{ready, arrival, driven}
use socks5proxy.Copy.{socksv5_copy_arrival, socksv5_copy_read, socksv5_copy_write}
use socks5proxy.Socks5.{SocksV5State}
use socks5proxy.Socks5.Greeting.{greeting_arrival, greeting_read, greeting_write}
use socks5proxy.Socks5.Auth.{auth_arrival, auth_read, auth_write}
use socks5proxy.Socks5.Session.Request.{request_arrival, request_read, request_block}
use socks5proxy.Socks5.Session.Connect.{connect_write}
use socks5proxy.Socks5.Session.Reply.{reply_arrival, reply_write}
use socks5proxy.Socks5.Nio.{
  Proxied, as_session, with_session, as_copying, with_copying, Handler, on_base, on_session,
  on_copying,
}

-- The number of a state in `enum socks_v5state`.
unfoldable pub index : SocksV5State → ℕ
index SocksV5State.greeting = 0
index SocksV5State.auth = 1
index SocksV5State.request = 2
index SocksV5State.connect = 3
index SocksV5State.reply = 4
index SocksV5State.copy = 5
index SocksV5State.done = 6
index SocksV5State.error = 7

-- A connection that is driven by the machine, `none` once an assert has failed.
abbrev pub Key : Type 0
Key = Option Proxied

abbrev pub socks5_ready : Handler → Key → ℕ × Key
socks5_ready h = ready index (index SocksV5State.error) h

unfoldable pub auth_reading : Handler
auth_reading k = do
  (st, c, u) ← auth_read k.base k.users k.outcomes.first
  some (st, record k { base = c; users = u })

unfoldable pub reply_arriving : Proxied → Option Proxied
reply_arriving k = do s ← reply_arrival (as_session k) k.outcomes.sock_name; some (with_session k s)

unfoldable pub copy_arriving : Proxied → Option Proxied
copy_arriving k = do c ← socksv5_copy_arrival (as_copying k); some (with_copying k c)

-- The handlers of the table, each with what the system answers.
unfoldable pub greeting_reading : Handler
greeting_reading k = on_base (λ c. greeting_read c k.outcomes.first) k

unfoldable pub greeting_writing : Handler
greeting_writing k = on_base (λ c. greeting_write c k.outcomes.sent) k

unfoldable pub auth_writing : Handler
auth_writing k = on_base (λ c. auth_write c k.outcomes.sent) k

unfoldable pub request_reading : Handler
request_reading k =
    on_session (λ s. request_read k.outcomes.network s k.outcomes.first k.outcomes.second) k

unfoldable pub request_blocking : Handler
request_blocking k = on_session (λ s. request_block k.outcomes.network s) k

unfoldable pub connect_writing : Handler
connect_writing k =
    on_session (λ s. connect_write k.outcomes.network.attempt s k.outcomes.so_error) k

unfoldable pub reply_writing : Handler
reply_writing k = on_session (λ s. reply_write s k.outcomes.sent) k

unfoldable pub copy_reading : Handler
copy_reading k = on_copying (λ c. socksv5_copy_read k.outcomes.side c k.outcomes.first) k

unfoldable pub copy_writing : Handler
copy_writing k = on_copying (λ c. socksv5_copy_write k.outcomes.side c k.outcomes.sent) k

-- An entry with nothing but its state.
abbrev pub bare : SocksV5State → StateDefinition Key
bare st = record {
  state = index st;
  on_arrival = none;
  on_departure = none;
  on_read_ready = none;
  on_write_ready = none;
  on_block_ready = none;
}

-- `socksv5_copy_close`, the departure of COPY, only writes to the log.
unfoldable pub definition : SocksV5State → StateDefinition Key
definition SocksV5State.greeting = record (bare SocksV5State.greeting) {
  on_arrival = some (arrival (λ k. some (record k { base = greeting_arrival k.base })));
  on_read_ready = some (socks5_ready greeting_reading);
  on_write_ready = some (socks5_ready greeting_writing);
}
definition SocksV5State.auth = record (bare SocksV5State.auth) {
  on_arrival = some (arrival (λ k. some (record k { base = auth_arrival k.base })));
  on_read_ready = some (socks5_ready auth_reading);
  on_write_ready = some (socks5_ready auth_writing);
}
definition SocksV5State.request = record (bare SocksV5State.request) {
  on_arrival = some (arrival (λ k. some (with_session k (request_arrival (as_session k)))));
  on_read_ready = some (socks5_ready request_reading);
  on_block_ready = some (socks5_ready request_blocking);
}
definition SocksV5State.connect = record (bare SocksV5State.connect) {
  on_write_ready = some (socks5_ready connect_writing);
}
definition SocksV5State.reply = record (bare SocksV5State.reply) {
  on_arrival = some (arrival reply_arriving);
  on_write_ready = some (socks5_ready reply_writing);
}
definition SocksV5State.copy = record (bare SocksV5State.copy) {
  on_arrival = some (arrival copy_arriving);
  on_departure = some (λ i k. k);
  on_read_ready = some (socks5_ready copy_reading);
  on_write_ready = some (socks5_ready copy_writing);
}
definition SocksV5State.done = bare SocksV5State.done
definition SocksV5State.error = bare SocksV5State.error

-- The entry with a number; there are eight, and ERROR's answers for all others.
unfoldable pub socks5_states : ℕ → StateDefinition Key
unfolding definition index
socks5_states zero = definition SocksV5State.greeting
socks5_states (suc zero) = definition SocksV5State.auth
socks5_states (suc (suc zero)) = definition SocksV5State.request
socks5_states (suc (suc (suc zero))) = definition SocksV5State.connect
socks5_states (suc (suc (suc (suc zero)))) = definition SocksV5State.reply
socks5_states (suc (suc (suc (suc (suc zero))))) = definition SocksV5State.copy
socks5_states (suc (suc (suc (suc (suc (suc zero)))))) = definition SocksV5State.done
socks5_states (suc (suc (suc (suc (suc (suc (suc n))))))) = definition SocksV5State.error

abbrev pub Machine : Type 0
Machine = StateMachine Key

-- The machine that `socks5_new` sets up.
unfoldable pub socks5_new : Option Machine
socks5_new = stm_init (record {
  initial = index SocksV5State.greeting;
  states = socks5_states;
  max_state = index SocksV5State.error;
  current = none;
})

-- `ERROR == st || DONE == st`
unfoldable pub is_over : ℕ → Bool
is_over st = st == index SocksV5State.error || st == index SocksV5State.done

-- An event: whether the connection is over, so that `socksv5_done` is called, and what is left.
abbrev pub Driven : Type 0
Driven = Option (Bool × Machine × Proxied)

unfoldable pub socksv5_read : Machine → Proxied → Driven
socksv5_read m k = driven is_over (stm_handler_read m (some k))

unfoldable pub socksv5_write : Machine → Proxied → Driven
socksv5_write m k = driven is_over (stm_handler_write m (some k))

unfoldable pub socksv5_block : Machine → Proxied → Driven
socksv5_block m k = driven is_over (stm_handler_block m (some k))
