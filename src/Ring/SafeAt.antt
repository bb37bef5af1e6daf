-- ===== src/Ring/SafeAt.antt =====
-- Functions that are safe to call in one state: they keep the tables well formed, and this node's
-- own data as they were.
use projeto_rci.Base.{◌≡◌, ◌∙◌, Bool, true, false, if◌then◌else◌}
use projeto_rci.Node.{Result, ok, stop}
use projeto_rci.Machine.{State, M, ◌>>◌, modify}
use projeto_rci.Frame.{After, Keeps}
use projeto_rci.Ring.Shrinking.{Good}
use projeto_rci.Ring.Safety.{safety}

-- From a state with the same data of this node.
pub After-from :
    {A : Type 0} (s t : State) (r : Result (A × State))
    → t.self ≡ s.self
    → After safety t r
    → After safety s r
After-from s t (ok (a, s')) e h = record { self = h.self ∙ e; tables = h.tables }
After-from s t (stop x) e h = tt

-- A function that is safe to call in this state.
pub record SafeAt (s : State) {A : Type 0} (m : M A) : Type 0 where
  pub run : After safety s (m s)

pub if-SafeAt :
    {s : State} {m k : M (Unit {0})} (b : Bool)
    → SafeAt s m
    → SafeAt s k
    → SafeAt s (if b then m else k)
if-SafeAt true p q = p
if-SafeAt false p q = q

pub modify-SafeAt :
    {s : State} {k : M (Unit {0})} (h : State → State)
    → (h s).self ≡ s.self
    → SafeAt (h s) k
    → SafeAt s (modify h >> k)
modify-SafeAt {s = s} {k = k} h e p = record { run = After-from s (h s) (k (h s)) e p.run }

pub Keeps-SafeAt : {A : Type 0} {s : State} {m : M A} → Good s → Keeps safety m → SafeAt s m
Keeps-SafeAt {s = s} g k = record { run = k.run s g }
