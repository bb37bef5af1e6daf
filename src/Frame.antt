-- ===== src/Frame.antt =====
-- Functions of the monad that keep to a frame: a relation between the states before and after a
-- function that returns, from states that are good to states that are good.
use projeto_rci.Base.{ℕ, zero, suc, ◌≡◌, ◌≤◌, refl, Bool, true, false, none, some, if◌then◌else◌}
use projeto_rci.Node.{Stop, null_pointer, out_of_fuel, Result, ok, stop}
use projeto_rci.Connections.Laws.{PointersOpen, updated-AllOpen}
use projeto_rci.Ring.Awaiting.{IsAwaiting}
use projeto_rci.Failures.{failures, failures_le, logged_le}
use projeto_rci.Machine.{
  State, M, and_then, ◌>>=◌, ◌>>◌, pure, fail, gets, modify, log, lift, deref, connection,
  update_connection, when, for_loop, for_until, Pointer, Connection, Event,
}

-- Not for lack of fuel.
abbrev pub Halts : Stop → Type 0
Halts out_of_fuel = ⊥
Halts e = Unit

abbrev pub HaltsOr {ℓ} : {A : Type ℓ} → Result A → Type 0
HaltsOr (ok a) = Unit
HaltsOr (stop e) = Halts e

-- The relation holds where the tables and this node's own data stay, and every pointer that is NULL
-- or points to an open connection does so afterwards, and a node that joins and
-- waits for a message waits for one afterwards, and no failed write is forgotten. `Stops` says for
-- which reasons a function may stop; lack of fuel may be none of them.
pub record Frame : Type 1 where
  pub Good : State → Type 0
  pub Rel : State → State → Type 0
  pub Stops : Stop → Type 0
  pub halts : (e : Stop) → Halts e → Stops e
  pub stays :
      (s s' : State)
      → Good s
      → s'.tables ≡ s.tables
      → s'.self ≡ s.self
      → (PointersOpen s → PointersOpen s')
      → (IsAwaiting s → IsAwaiting s')
      → failures s.history ≤ failures s'.history
      → Rel s s'
  pub compose : (a b c : State) → Rel a b → Rel b c → Rel a c
  pub good : (s s' : State) → Rel s s' → Good s'

module _ (F : Frame) where
  abbrev pub After : {A : Type 0} → State → Result (A × State) → Type 0
  After s (ok (a, s')) = F.Rel s s'
  After s (stop e) = F.Stops e

  pub record Keeps {A : Type 0} (m : M A) : Type 0 where
    pub run : (s : State) → F.Good s → After s (m s)

  pub After-compose :
      {A : Type 0} (s t : State) (r : Result (A × State)) → F.Rel s t → After t r → After s r
  After-compose s t (ok (a, s')) p q = F.compose s t s' p q
  After-compose s t (stop e) p q = q

  pub After-bind :
      {A B : Type 0} (s : State) (r : Result (A × State)) (f : A → M B)
      → After s r
      → ((a : A) → Keeps (f a))
      → After s (and_then r f)
  After-bind s (ok (a, t)) f h q = After-compose s t (f a t) h ((q a).run t (F.good s t h))
  After-bind s (stop e) f h q = h

  pub bind-Keeps :
      {A B : Type 0} {m : M A} {f : A → M B} → Keeps m → ((a : A) → Keeps (f a)) → Keeps (m >>= f)
  bind-Keeps {m = m} {f = f} p q = record { run = λ s g. After-bind s (m s) f (p.run s g) q }

  pub then-Keeps : {A B : Type 0} {m : M A} {k : M B} → Keeps m → Keeps k → Keeps (m >> k)
  then-Keeps p q = bind-Keeps p (λ a. q)

  -- What changes neither the tables nor this node's own data, nor leaves a pointer to a connection
  -- that is closed or a join that waits for nothing.
  pub modify-Keeps :
      (f : State → State)
      → ((s : State) → (f s).tables ≡ s.tables)
      → ((s : State) → (f s).self ≡ s.self)
      → ((s : State) → PointersOpen s → PointersOpen (f s))
      → ((s : State) → IsAwaiting s → IsAwaiting (f s))
      → ((s : State) → failures s.history ≤ failures (f s).history)
      → Keeps (modify f)
  modify-Keeps f p q r w l = record { run = λ s g. F.stays s (f s) g (p s) (q s) (r s) (w s) (l s) }

  pub gets-Keeps : {A : Type 0} (h : State → A) → Keeps (gets h)
  gets-Keeps h = record {
    run = λ s g. F.stays s s g refl refl (λ v. v) (λ w. w) (failures_le s.history);
  }

  pub pure-Keeps : {A : Type 0} (a : A) → Keeps (pure a)
  pure-Keeps a = record {
    run = λ s g. F.stays s s g refl refl (λ v. v) (λ w. w) (failures_le s.history);
  }

  pub fail-Keeps : {A : Type 0} (e : Stop) → Halts e → Keeps {A = A} (fail e)
  fail-Keeps e h = record { run = λ s g. F.halts e h }

  pub log-Keeps : (e : Event) → Keeps (log e)
  log-Keeps e =
      modify-Keeps _ (λ s. refl) (λ s. refl) (λ s v. v) (λ s w. w) (λ s. logged_le e s.history)

  pub if-Keeps :
      {A : Type 0} {m k : M A} (b : Bool) → Keeps m → Keeps k → Keeps (if b then m else k)
  if-Keeps true p q = p
  if-Keeps false p q = q

  pub when-Keeps : {m : M (Unit {0})} (b : Bool) → Keeps m → Keeps (when b m)
  when-Keeps true p = p
  when-Keeps false p = pure-Keeps tt

  pub lift-Keeps : {A : Type 0} (r : Result A) → HaltsOr r → Keeps (lift r)
  lift-Keeps (ok a) h = record {
    run = λ s g. F.stays s s g refl refl (λ v. v) (λ w. w) (failures_le s.history);
  }
  lift-Keeps (stop e) h = record { run = λ s g. F.halts e h }

  pub deref-Keeps : (p : Pointer) → Keeps (deref p)
  deref-Keeps none = fail-Keeps null_pointer tt
  deref-Keeps (some i) = pure-Keeps i

  pub connection-Keeps : (i : ℕ) → Keeps (connection i)
  connection-Keeps i = gets-Keeps _

  pub update_connection-Keeps :
      (i : ℕ) (f : Connection → Connection)
      → ((c : Connection) → (f c).socket ≡ c.socket)
      → Keeps (update_connection i f)
  unfolding update_connection
  update_connection-Keeps i f p =
      modify-Keeps _ (λ s. refl) (λ s. refl)
        (λ s.
          updated-AllOpen s.connections i f p s.new_node_conn s.pred_conn s.succ_conn
            s.outbound_chord_conn)
        (λ s w. w) (λ s. failures_le s.history)

  pub for_loop-Keeps :
      (n i : ℕ) (body : ℕ → M (Unit {0})) → ((k : ℕ) → Keeps (body k)) → Keeps (for_loop n i body)
  unfolding for_loop
  for_loop-Keeps zero i body p = pure-Keeps tt
  for_loop-Keeps (suc n) i body p = then-Keeps (p i) (for_loop-Keeps n (suc i) body p)

  go_on-Keeps : {m : M Bool} (b : Bool) → Keeps m → Keeps (elim b [ true ↦ m | false ↦ pure false ])
  go_on-Keeps true p = p
  go_on-Keeps false p = pure-Keeps false

  pub for_until-Keeps :
      (n i : ℕ) (body : ℕ → M Bool) → ((k : ℕ) → Keeps (body k)) → Keeps (for_until n i body)
  unfolding for_until
  for_until-Keeps zero i body p = pure-Keeps true
  for_until-Keeps (suc n) i body p =
      bind-Keeps (p i) (λ b. go_on-Keeps b (for_until-Keeps n (suc i) body p))

-- The rules that follow the shape of a function.
pub ruleset keeps = (
  bind-Keeps, then-Keeps, modify-Keeps, gets-Keeps, pure-Keeps, fail-Keeps, log-Keeps, if-Keeps,
  when-Keeps, lift-Keeps, deref-Keeps, connection-Keeps, update_connection-Keeps, for_loop-Keeps,
  for_until-Keeps, failures_le, logged_le,
)
