-- ===== src/Cluster/Ring/Clockwise.antt =====
-- The candidates of a key are the nodes in the order of their points from the key's hash on, around the
-- ring.
use advanced_distributed_sys.Base.{
  ℕ, zero, suc, ◌+◌, ◌%◌, ◌<◌, ◌≤◌, ◌≡◌, refl, sym, ap, ◌∙◌, Bool, true, false, not, List, [], ◌∷◌,
  ◌++◌, Result, ok, raise, no_route_error, ltb, ltb→lt, length, take, drop, filter, arith,
  Bool-cases, inl, inr,
}
use mathlib.Core.Path.{subst}
use advanced_distributed_sys.Order.{Str, list_ord, nat_ord, pair_ord}
use advanced_distributed_sys.Sorted.{sort_items, member}
use advanced_distributed_sys.Sorted.Stable.{is_above, Least, Rising, sort_items-Rising}
use advanced_distributed_sys.Cluster.Member.{ClusterMember}
use advanced_distributed_sys.Cluster.Ring.{
  Hashing, ConsistentHashRing, Point, positions_of, owners_of, range_from, points_of, rebuild,
  bisect_left, get_elem?, cons_some, visits, first_seen, candidates,
}

mod_below : (k n : ℕ) → k < n → k % n ≡ k
mod_below k n h = grind arith

mod_wrap : (k n : ℕ) → k < n → (k + n) % n ≡ k
mod_wrap k n h = grind arith

-- the element at `k` in front of those behind it
cons_elem :
    (k : ℕ) (ms rest : List ClusterMember)
    → k < length ms
    → cons_some (get_elem? ms k) (drop (suc k) ms ++ rest) ≡ drop k ms ++ rest
unfolding get_elem?
cons_elem k [] rest h = absurd omega arith
cons_elem zero (m ∷ ms) rest h = refl
cons_elem (suc k) (m ∷ ms) rest h = cons_elem k ms rest (omega arith)

take_elem :
    (k count : ℕ) (ms : List ClusterMember)
    → k < length ms
    → cons_some (get_elem? ms k) (take count (drop (suc k) ms)) ≡ take (suc count) (drop k ms)
unfolding get_elem?
take_elem k count [] h = absurd omega arith
take_elem zero count (m ∷ ms) h = refl
take_elem (suc k) count (m ∷ ms) h = take_elem k count ms (omega arith)

drop_all : (n : ℕ) (ms : List ClusterMember) → length ms ≡ n → drop n ms ≡ []
drop_all zero [] h = refl
drop_all zero (m ∷ ms) h = absurd omega arith
drop_all (suc n) [] h = refl
drop_all (suc n) (m ∷ ms) h = drop_all n ms (omega arith)

-- the visits behind the last owner begin again at the first
visits_wrapped :
    (ms : List ClusterMember) (start offset k count : ℕ)
    → start + offset ≡ k + length ms
    → k + count ≤ length ms
    → visits ms start (range_from offset count) ≡ take count (drop k ms)
unfolding visits range_from
visits_wrapped ms start offset k zero e l = refl
visits_wrapped ms start offset k (suc count) e l =
    rw
      (
        e,
        mod_wrap k (length ms) (omega arith),
        visits_wrapped ms start (offset + 1) (suc k) count (omega arith) (omega arith),
      )
      (take_elem k count ms (omega arith))

visits_from :
    (ms : List ClusterMember) (start offset count : ℕ)
    → offset + count ≡ length ms
    → start + offset ≤ length ms
    → visits ms start (range_from offset count) ≡ drop (start + offset) ms ++ take start ms
unfolding visits range_from
visits_from ms start offset zero e l =
    let nothing : start ≡ 0 = omega arith in
    rw (drop_all (start + offset) ms (omega arith), nothing) refl
visits_from ms start offset (suc count) e l = elim (Bool-cases (ltb (start + offset) (length ms))) [
  | inl b ↦
      let next : start + (offset + 1) ≡ suc (start + offset) = omega arith in
      let rest =
        visits_from ms start (offset + 1) count (omega arith)
          (omega (arith, ltb→lt (start + offset) (length ms) b)) in
      rw
        (mod_below (start + offset) (length ms) (ltb→lt (start + offset) (length ms) b), rest, next)
        (cons_elem (start + offset) ms (take start ms) (ltb→lt (start + offset) (length ms) b))
  | inr b ↦
      let at_end : length ms ≡ start + offset = ground arith in
      let left : suc count ≡ start = omega arith in
      visits_wrapped ms start offset 0 (suc count) (omega arith) (omega arith)
      ∙ ap (λ n. take n ms) left
      ∙ ap (λ (front : List ClusterMember). front ++ take start ms)
          (sym (drop_all (start + offset) ms at_end))
]

-- at the hash of the key or behind it, on the ring
abbrev pub is_ahead : ℕ → Point → Bool
is_ahead x p = not (ltb p.0.0 x)

abbrev pub is_behind : ℕ → Point → Bool
is_behind x p = ltb p.0.0 x

-- the owners of the points from `x` on, and then those of the points before it
abbrev pub clockwise : ℕ → List Point → List ClusterMember
clockwise x points =
    owners_of (filter (is_ahead x) points) ++ owners_of (filter (is_behind x) points)

positions_rise : (p q : Point) → is_above (pair_ord.cmp p.0 q.0) ≡ false → p.0.0 ≤ q.0.0
unfolding pair_ord nat_ord
positions_rise p q h = ground arith

all_ahead :
    (x : ℕ) (p : Point) (points : List Point)
    → x ≤ p.0.0
    → Least p points
    → (filter (is_ahead x) points ≡ points) × (filter (is_behind x) points ≡ [])
all_ahead x p [] l h = (refl, refl)
all_ahead x p (q ∷ points) l h =
    let (a, b) = all_ahead x p points l h.1 in
    let far = positions_rise p q h.0 in
    let late : ltb q.0.0 x ≡ false = ground arith in rw (late, a, b) (refl, refl)

split_owners :
    (x : ℕ) (points : List Point)
    → Rising points
    → (drop (bisect_left (positions_of points) x) (owners_of points)
        ≡ owners_of (filter (is_ahead x) points))
      × (take (bisect_left (positions_of points) x) (owners_of points)
          ≡ owners_of (filter (is_behind x) points))
unfolding bisect_left
split_owners x [] h = (refl, refl)
split_owners x (p ∷ points) h = elim (Bool-cases (ltb p.0.0 x)) [
  | inl b ↦
      let (i, j) = split_owners x points h.1 in
      rw b (i, ap (λ (ms : List ClusterMember). p.1 ∷ ms) j)
  | inr b ↦ let (i, j) = all_ahead x p points (ground arith) h.0 in rw (b, i, j) (refl, refl)
]

bisect_left-le :
    (x : ℕ) (points : List Point) → bisect_left (positions_of points) x ≤ length (owners_of points)
unfolding bisect_left
bisect_left-le x [] = omega arith
bisect_left-le x (p ∷ points) = ground (arith, bisect_left-le x points)

visits-clockwise :
    (x : ℕ) (points : List Point)
    → Rising points
    → visits
        (owners_of points)
        (bisect_left (positions_of points) x)
        (range_from 0 (length (owners_of points)))
      ≡ clockwise x points
visits-clockwise x points h =
    let start = bisect_left (positions_of points) x in
    let owners = owners_of points in
    let (i, j) = split_owners x points h in
    let here : start + 0 ≡ start = omega arith in
    visits_from owners start 0 (length owners) (omega arith)
      (omega (arith, bisect_left-le x points))
    ∙ rw (here, i, j) refl

-- no route without a node
abbrev pub routed : List ClusterMember → Result (List ClusterMember)
routed [] = raise no_route_error
routed (m ∷ ms) = ok (m ∷ ms)

-- what the candidates of a key are, given the sorted points of the ring
abbrev pub clockwise_nodes : ℕ → List Point → List ClusterMember
clockwise_nodes x points = first_seen [] (clockwise x points)

clockwise-cons :
    (x : ℕ) (p : Point) (points : List Point)
    → (m : ClusterMember) × (ms : List ClusterMember) × (clockwise x (p ∷ points) ≡ m ∷ ms)
clockwise-cons x p points = elim (Bool-cases (ltb p.0.0 x)) [
  | inl b ↦ go (filter (is_ahead x) points) refl b
  | inr b ↦ (
    p.1,
    owners_of (filter (is_ahead x) points) ++ owners_of (filter (is_behind x) points),
    rw b refl,
  )
]
  where
    go :
        (ahead : List Point)
        → filter (is_ahead x) points ≡ ahead
        → ltb p.0.0 x ≡ true
        → (m : ClusterMember) × (ms : List ClusterMember) × (clockwise x (p ∷ points) ≡ m ∷ ms)
    go [] e b = (p.1, owners_of (filter (is_behind x) points), rw (b, e) refl)
    go (q ∷ ahead) e b =
        (q.1, owners_of ahead ++ (p.1 ∷ owners_of (filter (is_behind x) points)), rw (b, e) refl)

clockwise_nodes-routed :
    (x : ℕ) (p : Point) (points : List Point)
    → routed (clockwise_nodes x (p ∷ points)) ≡ ok (clockwise_nodes x (p ∷ points))
unfolding first_seen member
clockwise_nodes-routed x p points =
    let (m, ms, e) = clockwise-cons x p points in
    subst (λ (l : List ClusterMember). routed (first_seen [] l) ≡ ok (first_seen [] l)) (sym e) refl

ring_points :
    (h : Hashing) (key : Str) (n : ℕ) (points : List Point)
    → Rising points
    → candidates h key
        (record { virtual_nodes = n; positions = positions_of points; owners = owners_of points })
      ≡ routed (clockwise_nodes (h.hash key) points)
unfolding candidates first_seen
ring_points h key n [] r = refl
ring_points h key n (p ∷ points) r =
    ap (λ ms. ok (first_seen [] ms)) (visits-clockwise (h.hash key) (p ∷ points) r)
    ∙ sym (clockwise_nodes-routed (h.hash key) p points)

pub candidates-clockwise_nodes :
    (h : Hashing) (key : Str) (members : List ClusterMember) (r : ConsistentHashRing)
    → candidates h key (rebuild h members r)
      ≡ routed (clockwise_nodes (h.hash key) (sort_items (points_of h r.virtual_nodes members)))
unfolding rebuild
candidates-clockwise_nodes h key members r =
    ring_points h key r.virtual_nodes (sort_items (points_of h r.virtual_nodes members))
      (sort_items-Rising (points_of h r.virtual_nodes members))
