-- ===== src/Socks5/Nio/Safety.antt =====
-- A connection that chose the method 0x02 gets no further than AUTH without being authenticated,
-- whatever happens on its descriptors (src/server/socks5nio.c).
use socks5proxy.Prelude.{
  ℕ, zero, suc, ◌≤◌, ◌≡◌, refl, sym, ◌∙◌, Bool, true, Option, none, some, arith, Option-cases, inl,
  inr, ◌==◌, Bool-cases, ap, subst,
}
use socks5proxy.Stm.{
  stm_state, call, stm_handler, stm_init, consecutive, stm_handler_read, stm_handler_write,
  stm_handler_block,
}
use socks5proxy.Stm.Steps.{IsValid, started, move, stm_handler-eq-some, stm_init-IsValid}
use socks5proxy.Stm.Driver.{arrival, driven}
use socks5proxy.Users.{Users}
use socks5proxy.Metrics.{MetricSnapshot}
use socks5proxy.Socks5.{SocksV5State}
use socks5proxy.Socks5.Late.{late}
use socks5proxy.Socks5.Greeting.{auth_method, greeting_arrival}
use socks5proxy.Socks5.Nio.{Proxied, Outcomes}
use socks5proxy.Socks5.Nio.Guarded.{
  Guarded, states_at, Kind, read, write, block, pointer, entry-Keeps, arrive-Guarded, depart_same,
}
use socks5proxy.Socks5.Nio.Table.{
  index, Key, is_over, definition, socks5_states, Machine, socks5_new, socksv5_read, socksv5_write,
  socksv5_block,
}

-- The state with a number.
state_of : ℕ → SocksV5State
state_of zero = SocksV5State.greeting
state_of (suc zero) = SocksV5State.auth
state_of (suc (suc zero)) = SocksV5State.request
state_of (suc (suc (suc zero))) = SocksV5State.connect
state_of (suc (suc (suc (suc zero)))) = SocksV5State.reply
state_of (suc (suc (suc (suc (suc zero))))) = SocksV5State.copy
state_of (suc (suc (suc (suc (suc (suc zero)))))) = SocksV5State.done
state_of (suc (suc (suc (suc (suc (suc (suc n))))))) = SocksV5State.error

state_of-index : (st : SocksV5State) → state_of (index st) ≡ st
unfolding state_of index
state_of-index SocksV5State.greeting = refl
state_of-index SocksV5State.auth = refl
state_of-index SocksV5State.request = refl
state_of-index SocksV5State.connect = refl
state_of-index SocksV5State.reply = refl
state_of-index SocksV5State.copy = refl
state_of-index SocksV5State.done = refl
state_of-index SocksV5State.error = refl

index-state_of : (n : ℕ) → n ≤ 7 → index (state_of n) ≡ n
unfolding state_of index
index-state_of zero h = refl
index-state_of (suc zero) h = refl
index-state_of (suc (suc zero)) h = refl
index-state_of (suc (suc (suc zero))) h = refl
index-state_of (suc (suc (suc (suc zero)))) h = refl
index-state_of (suc (suc (suc (suc (suc zero))))) h = refl
index-state_of (suc (suc (suc (suc (suc (suc zero)))))) h = refl
index-state_of (suc (suc (suc (suc (suc (suc (suc n))))))) h = omega arith

-- The machine of a connection, with its current state.
abbrev pub machine_at : Option ℕ → Machine
machine_at c = record { initial = 0; states = socks5_states; max_state = 7; current = c }

pub socks5_new_lem : socks5_new ≡ some (machine_at none)
unfolding socks5_new stm_init consecutive socks5_states definition index
socks5_new_lem = refl

-- A connection whose machine stands at `st`, and that is guarded there.
pub record Standing (m : Machine) (k : Proxied) : Type 0 where
  pub st : SocksV5State
  pub machine : m ≡ machine_at m.current
  pub valid : IsValid m
  pub at_state : stm_state m ≡ index st
  pub guarded : Guarded st k.base

started-Guarded :
    (c : Option ℕ) (st : SocksV5State) (k : Proxied)
    → stm_state (machine_at c) ≡ index st
    → Guarded st k.base
    → (k₁ : Proxied) × (started (machine_at c) (some k) ≡ some k₁) × Guarded st k₁.base
unfolding stm_state socks5_states definition call arrival state_of late
started-Guarded (some i) st k e g = (k, refl, g)
started-Guarded none st k e g =
    let q : st ≡ SocksV5State.greeting = sym (state_of-index st) ∙ ap state_of (sym e) in
    (record k { base = greeting_arrival k.base }, refl, rw q (λ l. cc l))

-- From the key that a handler leaves to the connection in the state that it returned.
moved-Guarded :
    (st st' : SocksV5State) (c : Option ℕ) (key : Key) {k' : Proxied}
    → move (machine_at c) (index st) (index st') key ≡ some k'
    → (k : Proxied) × (key ≡ some k) × (Guarded st' k.base → Guarded st' k'.base)
moved-Guarded st st' c key {k'} e = elim (Bool-cases (index st == index st')) [
  | inl t ↦ (k', rw t at e, λ g. g)
  | inr f ↦
      let e' : call (socks5_states (index st')).on_arrival (index st')
            (call (socks5_states (index st)).on_departure (index st) key)
          ≡ some k' =
        rw f at e in
      arrive-Guarded st' (index st') key
        (rw (states_at st, states_at st', depart_same st (index st) key) at e')
]

after-Guarded :
    (kind : Kind) (st st' : SocksV5State) (c : Option ℕ) (k k' : Proxied) (f : Key → ℕ × Key)
    → Guarded st k.base
    → pointer kind (definition st) ≡ some f
    → (f (some k)).0 ≡ index st'
    → move (machine_at c) (index st) (index st') (f (some k)).1 ≡ some k'
    → Guarded st' k'.base
after-Guarded kind st st' c k k' f g h r mv =
    let (k₂, e₂, keep) = moved-Guarded st st' c (f (some k)).1 mv in
    let p : f (some k) ≡ (index st', some k₂) = cc (r, e₂) in
    let (st'', q, g₂) = entry-Keeps st kind k k₂ (index st') g h p in
    let same : st'' ≡ st' = sym (state_of-index st'') ∙ ap state_of (sym q) ∙ state_of-index st' in
    keep (subst (λ s. Guarded s k₂.base) same g₂)

-- An event leaves the machine at the state that its handler returned, guarded there.
event_at :
    (kind : Kind) (c : Option ℕ) (st : SocksV5State) (k k' : Proxied) (ret : ℕ) {m' : Machine}
    → IsValid (machine_at c)
    → stm_state (machine_at c) ≡ index st
    → Guarded st k.base
    → stm_handler (pointer kind) (machine_at c) (some k) ≡ some (ret, m', some k')
    → Standing m' k'
unfolding stm_state
event_at kind c st k k' ret {m'} v a g e =
    let (f, h, r, le, q, mv) = stm_handler-eq-some (pointer kind) (machine_at c) (some k) v e in
    let n : index (state_of ret) ≡ ret = index-state_of ret le in
    let (k₁, s, g₁) = started-Guarded c st k a g in
    let h' : pointer kind (definition st) ≡ some f = rw (a, states_at st) at h in
    let r' : (f (some k₁)).0 ≡ index (state_of ret) = ap (λ z. (f z).0) (sym s) ∙ r ∙ sym n in
    let mv' : move (machine_at c) (index st) (index (state_of ret)) (f (some k₁)).1 ≡ some k' =
      rw (n, ← a, ← s) mv in
    rw q (record {
      st = state_of ret;
      machine = refl;
      valid = record {
        ordered = v.ordered;
        initial_exists = v.initial_exists;
        current_exists = λ j x. ground arith;
      };
      at_state = v.ordered ret le ∙ sym n;
      guarded = after-Guarded kind st (state_of ret) c k₁ k' f g₁ h' r' mv';
    })

-- What happens to a connection: events on its descriptors, the end of a lookup, and changes of the
-- accounts and the metrics by others.
pub data Step (m : Machine) (k : Proxied) : Machine → Proxied → Type 0 where
  reads :
      (o : Outcomes) (over : Bool) {m' : Machine} {k' : Proxied}
      → socksv5_read m (record k { outcomes = o }) ≡ some (over, m', k')
      → Step m k m' k'
  writes :
      (o : Outcomes) (over : Bool) {m' : Machine} {k' : Proxied}
      → socksv5_write m (record k { outcomes = o }) ≡ some (over, m', k')
      → Step m k m' k'
  resolves :
      (o : Outcomes) (over : Bool) {m' : Machine} {k' : Proxied}
      → socksv5_block m (record k { outcomes = o }) ≡ some (over, m', k')
      → Step m k m' k'
  elsewhere : (u : Users) (n : MetricSnapshot) → Step m k m (record k { users = u; metrics = n })

pub data Reach (m₀ : Machine) (k₀ : Proxied) : Machine → Proxied → Type 0 where
  here : Reach m₀ k₀ m₀ k₀
  next : {m m' : Machine} {k k' : Proxied} → Reach m₀ k₀ m k → Step m k m' k' → Reach m₀ k₀ m' k'

event-Standing :
    (kind : Kind) (m m' : Machine) (k k' : Proxied) (over : Bool)
    → Standing m k
    → driven is_over (stm_handler (pointer kind) m (some k)) ≡ some (over, m', k')
    → Standing m' k'
unfolding driven
event-Standing kind m m' k k' over s e =
    elim (Option-cases (stm_handler (pointer kind) m (some k))) [
      | inl n ↦ absurd (ground arith)
      | inr ((ret, m₁, none), p) ↦ absurd (ground arith)
      | inr ((ret, m₁, some k₁), p) ↦
          let q : m₁ ≡ m' = ground arith in
          let q' : k₁ ≡ k' = ground arith in
          let shape = s.machine in
          event_at kind m.current s.st k k' ret (subst IsValid shape s.valid)
            (ap stm_state (sym shape) ∙ s.at_state) s.guarded
            (ap (λ z. stm_handler (pointer kind) z (some k)) (sym shape) ∙ cc (p, q, q'))
    ]

with_outcomes :
    (m : Machine) (k : Proxied) (o : Outcomes)
    → Standing m k
    → Standing m (record k { outcomes = o })
with_outcomes m k o s = record {
  st = s.st;
  machine = s.machine;
  valid = s.valid;
  at_state = s.at_state;
  guarded = s.guarded;
}

Step-Standing : {m m' : Machine} {k k' : Proxied} → Step m k m' k' → Standing m k → Standing m' k'
unfolding socksv5_read socksv5_write socksv5_block stm_handler_read stm_handler_write
    stm_handler_block
Step-Standing {m} {m'} {k} {k'} (reads o over e) s =
    event-Standing read m m' (record k { outcomes = o }) k' over (with_outcomes m k o s) e
Step-Standing {m} {m'} {k} {k'} (writes o over e) s =
    event-Standing write m m' (record k { outcomes = o }) k' over (with_outcomes m k o s) e
Step-Standing {m} {m'} {k} {k'} (resolves o over e) s =
    event-Standing block m m' (record k { outcomes = o }) k' over (with_outcomes m k o s) e
Step-Standing (elsewhere u n) s = record {
  st = s.st;
  machine = s.machine;
  valid = s.valid;
  at_state = s.at_state;
  guarded = s.guarded;
}

Reach-Standing :
    {m₀ : Machine} {k₀ : Proxied} {m : Machine} {k : Proxied}
    → Reach m₀ k₀ m k
    → Standing m₀ k₀
    → Standing m k
Reach-Standing here s = s
Reach-Standing (next r step) s = Step-Standing step (Reach-Standing r s)

new-Standing : {m : Machine} (k : Proxied) → socks5_new ≡ some m → Standing m k
unfolding stm_state late index socks5_new
new-Standing {m} k e =
    let q : m ≡ machine_at none = ground (arith, socks5_new_lem) in
    rw q (record {
      st = SocksV5State.greeting;
      machine = refl;
      valid = stm_init-IsValid (machine_at none) socks5_new_lem;
      at_state = refl;
      guarded = λ l. cc l;
    })

-- A connection that `socks5_new` has set up, after any sequence of events on its descriptors, with
-- any outcomes of the calls to the system, among any changes of the accounts and the metrics: if it
-- is in REQUEST, CONNECT, REPLY or COPY, and the method that it chose is 0x02, then it is
-- authenticated.
pub Reach-authenticated :
    {m₀ m : Machine} {k₀ k : Proxied} (st : SocksV5State)
    → socks5_new ≡ some m₀
    → Reach m₀ k₀ m k
    → stm_state m ≡ index st
    → late st ≡ true
    → k.base.greeting_st.method ≡ auth_method
    → k.base.auth_st.authenticated ≡ true
Reach-authenticated {m₀} {m} {k₀} {k} st e r a l c =
    let s = Reach-Standing r (new-Standing k₀ e) in
    let same : s.st ≡ st =
      sym (state_of-index s.st) ∙ ap state_of (sym s.at_state ∙ a) ∙ state_of-index st in
    s.guarded (ap late same ∙ l) c
