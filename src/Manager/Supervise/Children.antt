-- ===== src/Manager/Supervise/Children.antt =====
-- src/manager.rs: the life of a child process, the logs that respect it, and the children of a pool.
use polychrome_php.Prelude.{
  ℕ, ◌≤◌, ◌≡◌, refl, sym, subst, ◌≢◌, List, [], ◌∷◌, ◌++◌, some, arith, ◌==◌, if◌then◌else◌,
}
use polychrome_php.Manager.Pool.{Pool, insert, lookup, remove, map_values}
use polychrome_php.Manager.Pool.Laws.{Above, Sorted}
use polychrome_php.Manager.Worker.{Worker}
use polychrome_php.Manager.Loop.{
  sigkill, sigusr1, sigterm, sigint, sigchld, Event, spawned, spawn_failed, ready_line, drain_line,
  terminating, kill, abnormal_exit, reaped,
}

pub data Child : Type 0 where
  absent alive doomed : Child

-- What every pid is.
abbrev pub Children : Type 0
Children = ℕ → Child

abbrev pub update : ℕ → Child → Children → Children
update p c live q = if p == q then c else live q

-- Which log takes which children to which. SIGKILL goes to a child that is alive, and no second
-- time; another signal goes to a child that is not yet reaped; only such a child is reaped.
abbrev pub Runs : Children → List Event → Children → Type 0
Runs live [] after = live ≡ after
Runs live (spawned p ∷ es) after = Runs (update p alive live) es after
Runs live (kill p sigkill ∷ es) after = (live p ≡ alive) × Runs (update p doomed live) es after
Runs live (kill p sigchld ∷ es) after = (live p ≢ absent) × Runs live es after
Runs live (kill p sigterm ∷ es) after = (live p ≢ absent) × Runs live es after
Runs live (kill p sigint ∷ es) after = (live p ≢ absent) × Runs live es after
Runs live (kill p sigusr1 ∷ es) after = (live p ≢ absent) × Runs live es after
Runs live (reaped p ∷ es) after = (live p ≢ absent) × Runs (update p absent live) es after
Runs live (spawn_failed _ ∷ es) after = Runs live es after
Runs live (ready_line ∷ es) after = Runs live es after
Runs live (drain_line ∷ es) after = Runs live es after
Runs live (terminating _ _ ∷ es) after = Runs live es after
Runs live (abnormal_exit _ _ ∷ es) after = Runs live es after

pub Runs-append :
    (es fs : List Event) (a b c : Children) → Runs a es b → Runs b fs c → Runs a (es ++ fs) c
Runs-append [] fs a b c h k = subst (λ x. Runs x fs c) (sym h) k
Runs-append (spawned p ∷ es) fs a b c h k = Runs-append es fs _ b c h k
Runs-append (kill p sigkill ∷ es) fs a b c h k = (h.0, Runs-append es fs _ b c h.1 k)
Runs-append (kill p sigchld ∷ es) fs a b c h k = (h.0, Runs-append es fs a b c h.1 k)
Runs-append (kill p sigterm ∷ es) fs a b c h k = (h.0, Runs-append es fs a b c h.1 k)
Runs-append (kill p sigint ∷ es) fs a b c h k = (h.0, Runs-append es fs a b c h.1 k)
Runs-append (kill p sigusr1 ∷ es) fs a b c h k = (h.0, Runs-append es fs a b c h.1 k)
Runs-append (reaped p ∷ es) fs a b c h k = (h.0, Runs-append es fs _ b c h.1 k)
Runs-append (spawn_failed _ ∷ es) fs a b c h k = Runs-append es fs a b c h k
Runs-append (ready_line ∷ es) fs a b c h k = Runs-append es fs a b c h k
Runs-append (drain_line ∷ es) fs a b c h k = Runs-append es fs a b c h k
Runs-append (terminating _ _ ∷ es) fs a b c h k = Runs-append es fs a b c h k
Runs-append (abnormal_exit _ _ ∷ es) fs a b c h k = Runs-append es fs a b c h k

abbrev pub child : Worker → Child
child w = if w.killed then doomed else alive

-- The children of a pool, over what the other pids are.
abbrev pub over : Pool Worker → Children → Children
over [] live q = live q
over ((p, w) ∷ m) live q = if p == q then child w else over m live q

abbrev pub view : Pool Worker → Children
view m = over m (λ _. absent)

pub over-insert_at :
    (q p : ℕ) (w : Worker) (m : Pool Worker) (live : Children)
    → update p (child w) (over m live) q ≡ over (insert p w m) live q
unfolding insert
over-insert_at q p w [] live = refl
over-insert_at q p w ((j, v) ∷ m) live = ground (arith, over-insert_at q p w m live)

over-Above :
    (p j : ℕ) (m : Pool Worker) (live : Children) → Above j m → p ≤ j → over m live p ≡ live p
over-Above p j [] live h le = refl
over-Above p j ((i, w) ∷ m) live h le = ground (arith, over-Above p j m live h.1)

pub over-update_at :
    (q p : ℕ) (c : Child) (m : Pool Worker) (live : Children)
    → Above p m
    → over m (update p c live) q ≡ update p c (over m live) q
over-update_at q p c [] live h = refl
over-update_at q p c ((j, v) ∷ m) live h = ground (arith, over-update_at q p c m live h.1)

pub over-remove_at :
    (q p : ℕ) (m : Pool Worker) → Sorted m → update p absent (view m) q ≡ view (remove p m) q
unfolding remove
over-remove_at q p [] h = ground arith
over-remove_at q p ((j, v) ∷ m) h =
    ground (arith, over-remove_at q p m h.1, over-Above q j m (λ _. absent) h.0)

pub over-map_values_at :
    (q : ℕ) (f : ℕ → Worker → Worker) (m : Pool Worker) (live : Children)
    → ((p : ℕ) (w : Worker) → (f p w).killed ≡ w.killed)
    → over m live q ≡ over (map_values f m) live q
over-map_values_at q f [] live h = refl
over-map_values_at q f ((j, v) ∷ m) live h = ground (arith, over-map_values_at q f m live h, h j v)

pub lookup-view : (p : ℕ) (m : Pool Worker) {w : Worker} → lookup p m ≡ some w → view m p ≢ absent
unfolding lookup
lookup-view p [] h = cc
lookup-view p ((j, v) ∷ m) {w} h = ground (arith, lookup-view p m {w = w})
