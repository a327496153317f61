-- ===== src/World/Safe.antt =====
-- Steps of the world that respect the database: distinct keys, legal moves, and a clock that does
-- not run backwards, with any queries of other processes in between.
use notifier.Base.{String, ℕ, ◌+◌, ◌≤◌, ◌≡◌, List, [], ◌∷◌, All, sym, subst}
use native.Mathlib.Nat.{le_refl, le_trans, le-add_right}
use notifier.Storage.Table.{Table, Statement, apply}
use notifier.Storage.Table.Keys.{IsKeyed, apply-IsKeyed}
use notifier.Storage.Table.Evolves.{Follows, Follows-refl, Follows-trans}
use notifier.Storage.Table.Legal.{IsIssued, apply-Follows}
use notifier.Delivery.{rest}
use notifier.World.{
  World, Turn, Fate, served, refused, reply_lost, next_turn, run_all, arrive, settle, exec, query,
}

-- The other processes issue statements of this code only.
abbrev pub AllIssued : List Turn → Type 0
AllIssued turns = All (λ t. All IsIssued t.others) turns

pub record IsSound (w : World) : Type 0 where
  pub keyed : IsKeyed w.table
  pub issued : AllIssued w.turns

pub record Leads (w v : World) : Type 0 where
  pub sound : IsSound v
  pub follows : Follows w.table v.table
  pub later : w.now ≤ v.now

-- What a handler owes: from a sound world it leads to a sound world.
abbrev pub IsSafe : World → World → Type 0
IsSafe w v = IsSound w → Leads w v

pub IsSafe-refl : (w : World) → IsSafe w w
IsSafe-refl w h = record { sound = h; follows = Follows-refl w.table; later = le_refl w.now }

pub IsSafe-trans : (u v w : World) → IsSafe u v → IsSafe v w → IsSafe u w
IsSafe-trans u v w f g h =
    let a = f h in
    let b = g a.sound in
    record {
      sound = b.sound;
      follows = Follows-trans u.table v.table w.table a.follows b.follows;
      later = le_trans a.later b.later;
    }

-- A step that leaves the table and the schedule of queries alone.
pub record IsAside (w v : World) : Type 0 where
  pub same_table : v.table ≡ w.table
  pub same_turns : v.turns ≡ w.turns
  pub later : w.now ≤ v.now

pub IsAside-IsSafe : (w v : World) → IsAside w v → IsSafe w v
IsAside-IsSafe w v a h = record {
  sound = record {
    keyed = subst IsKeyed (sym a.same_table) h.keyed;
    issued = subst AllIssued (sym a.same_turns) h.issued;
  };
  follows = subst (Follows w.table) (sym a.same_table) (Follows-refl w.table);
  later = a.later;
}

run_all_sound :
    (ss : List Statement) (now : ℕ) (t : Table)
    → IsKeyed t
    → All IsIssued ss
    → IsKeyed (run_all ss now t) × Follows t (run_all ss now t)
unfolding run_all
run_all_sound [] now t k i = (k, Follows-refl t)
run_all_sound (s ∷ ss) now t k i =
    let (k', f) = run_all_sound ss now (apply s now t) (apply-IsKeyed s now t k) i.1 in
    (k', Follows-trans t (apply s now t) _ (apply-Follows s now t k i.0) f)

next_turn-IsIssued :
    (ts : List Turn) → AllIssued ts → All IsIssued (next_turn ts).others × AllIssued (rest ts)
next_turn-IsIssued [] h = (tt, tt)
next_turn-IsIssued (t ∷ ts) h = (h.0, h.1)

pub arrive-IsSafe : (w : World) → IsSafe w (arrive w)
unfolding arrive
arrive-IsSafe w h =
    let (now, later) = next_turn-IsIssued w.turns h.issued in
    let (k, f) =
      run_all_sound (next_turn w.turns).others (w.now + (next_turn w.turns).elapsed) w.table h.keyed
        now in
    record { sound = record { keyed = k; issued = later }; follows = f; later = le-add_right _ _ }

pub apply-IsSafe :
    (s : Statement) (w : World) → IsIssued s → IsSafe w (record w { table = apply s w.now w.table })
apply-IsSafe s w i h = record {
  sound = record { keyed = apply-IsKeyed s w.now w.table h.keyed; issued = h.issued };
  follows = apply-Follows s w.now w.table h.keyed i;
  later = le_refl w.now;
}

pub settle-elim :
    {A : Type 0} (P : World → Type 0) (f : Fate) (label : String) (a : A) (before after : World)
    → P before
    → P after
    → P (settle f label a before after).1
unfolding settle
settle-elim P served label a before after p q = q
settle-elim P refused label a before after p q = p
settle-elim P reply_lost label a before after p q = q

pub exec-IsSafe :
    {A : Type 0} (label : String) (s : Statement) (reply : ℕ → Table → A) (w : World)
    → IsIssued s
    → IsSafe w (exec label s reply w).1
unfolding exec
exec-IsSafe label s reply w i =
    settle-elim (IsSafe w) _ label _ _ _ (arrive-IsSafe w)
      (IsSafe-trans w (arrive w) _ (arrive-IsSafe w) (apply-IsSafe s (arrive w) i))

pub query-IsSafe :
    {A : Type 0} (label : String) (read : ℕ → Table → A) (w : World)
    → IsSafe w (query label read w).1
unfolding query
query-IsSafe label read w = settle-elim (IsSafe w) _ label _ _ _ (arrive-IsSafe w) (arrive-IsSafe w)
