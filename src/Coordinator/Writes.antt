-- ===== src/Coordinator/Writes.antt =====
-- Where the steps in flight write in the activation buffer: the offsets that `reserve` of
-- deltaserve/coordinator.py hands out.
use delta_serve_v_llm.Common.{ℕ, ◌+◌, ◌<◌, ◌≤◌, ◌≡◌, List, [], ◌∷◌, ◌++◌, arith}
use delta_serve_v_llm.Store.{FinetuningSample}
use delta_serve_v_llm.Coordinator.{
  Coordinator, next_ft_budget, reserve, release_reserve, commit_rows,
}

-- The offset and the rows of each step in flight, oldest first.
abbrev pub Writes : Type 0
Writes = List (ℕ × ℕ)

-- Each step writes right behind the one before it, from row `a` up to row `b`.
abbrev pub Tiles : ℕ → Writes → ℕ → Type 0
Tiles a [] b = a ≡ b
Tiles a ((off, n) ∷ ws) b = (off ≡ a) × Tiles (a + n) ws b

-- Two steps share no row, and all rows are below `b`.
abbrev pub AreBeyond : ℕ → Writes → ℕ → Type 0
AreBeyond a [] b = Unit {0}
AreBeyond a ((off, n) ∷ ws) b = (a ≤ off) × (off + n ≤ b) × AreBeyond a ws b

abbrev pub AreDisjoint : Writes → ℕ → Type 0
AreDisjoint [] b = Unit {0}
AreDisjoint ((off, n) ∷ ws) b = (off + n ≤ b) × AreBeyond (off + n) ws b × AreDisjoint ws b

Tiles-le : (a : ℕ) (ws : Writes) (b : ℕ) → Tiles a ws b → a ≤ b
Tiles-le a [] b t = omega arith
Tiles-le a ((off, n) ∷ ws) b t = omega (arith, Tiles-le (a + n) ws b t.1)

Tiles-AreBeyond : (a m : ℕ) (ws : Writes) (b : ℕ) → m ≤ a → Tiles a ws b → AreBeyond m ws b
Tiles-AreBeyond a m [] b h t = tt
Tiles-AreBeyond a m ((off, n) ∷ ws) b h (e, t) = (
  omega arith,
  omega (arith, Tiles-le (a + n) ws b t),
  Tiles-AreBeyond (a + n) m ws b (omega arith) t,
)

Tiles-AreDisjoint : (a : ℕ) (ws : Writes) (b : ℕ) → Tiles a ws b → AreDisjoint ws b
Tiles-AreDisjoint a [] b t = tt
Tiles-AreDisjoint a ((off, n) ∷ ws) b (e, t) = (
  omega (arith, Tiles-le (a + n) ws b t),
  Tiles-AreBeyond (a + n) (off + n) ws b (omega arith) t,
  Tiles-AreDisjoint (a + n) ws b t,
)

Tiles-snoc : (a : ℕ) (ws : Writes) (b n : ℕ) → Tiles a ws b → Tiles a (ws ++ (b, n) ∷ []) (b + n)
Tiles-snoc a [] b n t = (omega arith, omega arith)
Tiles-snoc a ((off, m) ∷ ws) b n (e, t) = (e, Tiles-snoc (a + m) ws b n t)

Tiles-unsnoc :
    (a : ℕ) (ws : Writes) (off b n : ℕ)
    → Tiles a (ws ++ (off, n) ∷ []) b
    → Tiles a ws off × (off + n ≡ b)
Tiles-unsnoc a [] off b n (e, t) = (omega arith, omega arith)
Tiles-unsnoc a ((o, m) ∷ ws) off b n (e, t) =
    let (t', e') = Tiles-unsnoc (a + m) ws off b n t in ((e, t'), e')

AreBeyond-mono : (m : ℕ) (ws : Writes) (b b' : ℕ) → b ≤ b' → AreBeyond m ws b → AreBeyond m ws b'
AreBeyond-mono m [] b b' h x = tt
AreBeyond-mono m ((off, n) ∷ ws) b b' h (x, y, z) = (x, omega arith, AreBeyond-mono m ws b b' h z)

AreDisjoint-mono : (ws : Writes) (b b' : ℕ) → b ≤ b' → AreDisjoint ws b → AreDisjoint ws b'
AreDisjoint-mono [] b b' h x = tt
AreDisjoint-mono ((off, n) ∷ ws) b b' h (x, y, z) =
    (omega arith, AreBeyond-mono (off + n) ws b b' h y, AreDisjoint-mono ws b b' h z)

-- A schedule, the capture of the oldest step, or the roll-back of the newest one.
pub data WriteStep (c : Coordinator) (ws : Writes) : Coordinator → Writes → Type 0 where
  schedules :
      (n : ℕ) (ss : List FinetuningSample)
      → 0 < n
      → n ≤ next_ft_budget c
      → WriteStep c ws (reserve c n ss).0 (ws ++ ((reserve c n ss).1, n) ∷ [])
  saves :
      (off n : ℕ) (rest : Writes) (lens : List ℕ)
      → ws ≡ (off, n) ∷ rest
      → WriteStep c ws (commit_rows c n lens) rest
  undoes :
      (off n : ℕ) (rest : Writes) (ss : List FinetuningSample)
      → ws ≡ rest ++ (off, n) ∷ []
      → WriteStep c ws (release_reserve c n ss) rest

pub record AreLaidOut (c : Coordinator) (ws : Writes) : Type 0 where
  pub tiles : Tiles c.fill_count ws (c.fill_count + c.reserved_fill)
  pub within : c.fill_count + c.reserved_fill ≤ c.capacity

pub WriteStep-AreLaidOut :
    {c d : Coordinator} {ws vs : Writes} → WriteStep c ws d vs → AreLaidOut c ws → AreLaidOut d vs
unfolding reserve next_ft_budget commit_rows release_reserve
WriteStep-AreLaidOut {c} {ws = ws} (schedules n ss pos h) l = record {
  tiles = ground (arith, Tiles-snoc c.fill_count ws (c.fill_count + c.reserved_fill) n l.tiles);
  within = ground arith;
}
WriteStep-AreLaidOut {c} (saves off n rest lens e) l =
    let t : Tiles c.fill_count ((off, n) ∷ rest) (c.fill_count + c.reserved_fill) =
      rw e at l.tiles in
    record {
      tiles = ground (arith, t.1, Tiles-le (c.fill_count + n) rest _ t.1);
      within = ground (arith, l.within, Tiles-le (c.fill_count + n) rest _ t.1);
    }
WriteStep-AreLaidOut {c} (undoes off n rest ss e) l =
    let t : Tiles c.fill_count (rest ++ (off, n) ∷ []) (c.fill_count + c.reserved_fill) =
      rw e at l.tiles in
    let u = Tiles-unsnoc c.fill_count rest off (c.fill_count + c.reserved_fill) n t in
    record {
      tiles = ground (arith, u.0, u.1, Tiles-le c.fill_count rest off u.0);
      within = ground (arith, l.within);
    }

pub data WriteReach (c : Coordinator) : Coordinator → Writes → Type 0 where
  starts_empty : c.reserved_fill ≡ 0 → c.fill_count ≤ c.capacity → WriteReach c c []
  and_then :
      {d e : Coordinator} {ws vs : Writes}
      → WriteReach c d ws
      → WriteStep d ws e vs
      → WriteReach c e vs

WriteReach-AreLaidOut : {c d : Coordinator} {ws : Writes} → WriteReach c d ws → AreLaidOut d ws
WriteReach-AreLaidOut (starts_empty e h) = record { tiles = omega arith; within = omega arith }
WriteReach-AreLaidOut (and_then r s) = WriteStep-AreLaidOut s (WriteReach-AreLaidOut r)

-- As long as steps are scheduled within their budget, captured oldest first and rolled back newest
-- first, from a buffer without reservations, the steps in flight write to rows of the buffer that
-- no other step in flight writes to and that lie behind all saved rows.
pub WriteReach-AreDisjoint :
    {c d : Coordinator} {ws : Writes}
    → WriteReach c d ws
    → AreBeyond d.fill_count ws d.capacity × AreDisjoint ws d.capacity
WriteReach-AreDisjoint {d = d} {ws} r =
    let l = WriteReach-AreLaidOut r in
    (
      AreBeyond-mono d.fill_count ws _ d.capacity l.within
          (Tiles-AreBeyond d.fill_count d.fill_count ws _ (omega arith) l.tiles),
      AreDisjoint-mono ws _ d.capacity l.within (Tiles-AreDisjoint d.fill_count ws _ l.tiles),
    )

-- Rolling back the older of two steps in flight misplaces the newer one. Step one got `n1` rows,
-- step two the `n2` rows behind them. After the roll-back of step one the next reservation starts
-- inside the rows of step two or before them. After the capture of step two the buffer's count ends
-- `n1` rows before the rows of step two do.
pub rollback-misplaces :
    (c : Coordinator) (n1 n2 : ℕ) (ss1 ss2 : List FinetuningSample) (lens : List ℕ)
    → 0 < n1
    → 0 < n2
    → c.reserved_fill ≡ 0
    → let two = reserve (reserve c n1 ss1).0 n2 ss2 in
      let undone = release_reserve two.0 n1 ss1 in
      ((reserve undone 1 []).1 < two.1 + n2)
      × ((commit_rows undone n2 lens).fill_count + n1 ≡ two.1 + n2)
unfolding reserve release_reserve commit_rows
rollback-misplaces c n1 n2 ss1 ss2 lens h1 h2 e = (ground arith, ground arith)
