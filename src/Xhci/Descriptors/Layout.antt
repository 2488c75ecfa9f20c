-- ===== src/Xhci/Descriptors/Layout.antt =====
-- The search of parse_hid_keyboard_endpoint against the descriptors that the bytes stand for.
use mon_os.Base.{
  ℕ, zero, suc, ◌+◌, ◌≤◌, ◌<◌, ◌≡◌, refl, sym, ap, ◌∙◌, arith, Bool, true, false, ◌||◌, Option,
  none, some, List, [], ◌∷◌, ◌++◌, append_assoc, ◌==◌, ltb, leb, if◌then◌else◌, length,
  length-append, get_elem?,
}
use mon_os.Xhci.Descriptors.{
  Found, endpoint, go, at, is_keyboard, on_interface, endpoint_of, on_endpoint, on_descriptor,
  Parsed, Round, ends, moves, act, with_type, with_length, round, scan, parse_hid_keyboard_endpoint,
}

-- A descriptor: its type and the bytes behind the type
pub record Descriptor : Type 0 where
  pub dtype : ℕ
  pub body : List ℕ

-- Its bytes: the length of the whole, the type, the rest
unfoldable pub render : Descriptor → List ℕ
render d = (2 + length d.body) ∷ d.dtype ∷ d.body

unfoldable pub render_all : List Descriptor → List ℕ
render_all [] = []
render_all (d ∷ ds) = render d ++ render_all ds

-- The flag after an interface descriptor, which must have seven bytes behind its type
unfoldable pub interface_body : List ℕ → Bool → Bool
interface_body (number ∷ alternate ∷ endpoints ∷ class ∷ subclass ∷ proto ∷ name ∷ rest) in_hid =
    is_keyboard class subclass proto
interface_body body in_hid = in_hid

unfoldable pub endpoint_body : List ℕ → Bool → Found
endpoint_body (addr ∷ attrs ∷ low ∷ high ∷ interval ∷ rest) in_hid =
    if in_hid then endpoint_of addr attrs low high interval else Found.go in_hid
endpoint_body body in_hid = Found.go in_hid

-- What the descriptors up to here say: an endpoint, or the flag
unfoldable pub visit : Descriptor → Bool → Found
visit d in_hid =
    if d.dtype == 4
    then Found.go (interface_body d.body in_hid)
    else if d.dtype == 5
    then endpoint_body d.body in_hid
    else Found.go in_hid

-- The first interrupt endpoint towards the host behind the interface of a boot keyboard
unfoldable pub pick : Bool → List Descriptor → Option (ℕ × ℕ × ℕ)
pick in_hid [] = none
pick in_hid (d ∷ ds) = elim (visit d in_hid) [
  | endpoint addr maxp interval ↦ some (addr, maxp, interval)
  | go in_hid' ↦ pick in_hid' ds
]

get_elem?-append :
    (front rest : List ℕ) (k : ℕ) → get_elem? (front ++ rest) (length front + k) ≡ get_elem? rest k
get_elem?-append [] rest k = let e : 0 + k ≡ k = omega arith in ap (get_elem? rest) e
get_elem?-append (x ∷ front) rest k =
    let e : suc (length front) + k ≡ suc (length front + k) = omega arith in
    ap (get_elem? (x ∷ (front ++ rest))) e ∙ get_elem?-append front rest k

module _ (front rest : List ℕ) where
  -- The bytes of the descriptor at the offset where `front` ends
  at-render :
      (dtype : ℕ) (body : List ℕ) (k : ℕ)
      → at
          (front ++ (render (record { dtype = dtype; body = body }) ++ rest))
          (length front + (2 + k))
        ≡ get_elem? (body ++ rest) k
  unfolding at render
  at-render dtype body k =
      let e : 2 + k ≡ suc (suc k) = omega arith in
      get_elem?-append front ((2 + length body) ∷ dtype ∷ (body ++ rest)) (2 + k)
      ∙ ap (get_elem? ((2 + length body) ∷ dtype ∷ (body ++ rest))) e

  on_interface_lem :
      (t : ℕ) (body : List ℕ) (b : Bool)
      → on_interface
          (front ++ (render (record { dtype = t; body = body }) ++ rest))
          (length front)
          (2 + length body)
          b
        ≡ some (Found.go (interface_body body b))
  unfolding on_interface interface_body
  on_interface_lem t [] b = refl
  on_interface_lem t (a1 ∷ []) b = refl
  on_interface_lem t (a1 ∷ a2 ∷ []) b = refl
  on_interface_lem t (a1 ∷ a2 ∷ a3 ∷ []) b = refl
  on_interface_lem t (a1 ∷ a2 ∷ a3 ∷ a4 ∷ []) b = refl
  on_interface_lem t (a1 ∷ a2 ∷ a3 ∷ a4 ∷ a5 ∷ []) b = refl
  on_interface_lem t (a1 ∷ a2 ∷ a3 ∷ a4 ∷ a5 ∷ a6 ∷ []) b = refl
  on_interface_lem t (a1 ∷ a2 ∷ a3 ∷ a4 ∷ a5 ∷ a6 ∷ a7 ∷ more) b =
      let body = a1 ∷ a2 ∷ a3 ∷ a4 ∷ a5 ∷ a6 ∷ a7 ∷ more in
      let long : leb 9 (2 + length body) ≡ true = ground arith in
      rw (on_interface, long, at-render t body 3, at-render t body 4, at-render t body 5) refl

  on_endpoint_lem :
      (t : ℕ) (body : List ℕ) (b : Bool)
      → on_endpoint
          (front ++ (render (record { dtype = t; body = body }) ++ rest))
          (length front)
          (2 + length body)
          b
        ≡ some (endpoint_body body b)
  unfolding on_endpoint endpoint_body
  on_endpoint_lem t [] false = refl
  on_endpoint_lem t [] true = refl
  on_endpoint_lem t (a1 ∷ []) false = refl
  on_endpoint_lem t (a1 ∷ []) true = refl
  on_endpoint_lem t (a1 ∷ a2 ∷ []) false = refl
  on_endpoint_lem t (a1 ∷ a2 ∷ []) true = refl
  on_endpoint_lem t (a1 ∷ a2 ∷ a3 ∷ []) false = refl
  on_endpoint_lem t (a1 ∷ a2 ∷ a3 ∷ []) true = refl
  on_endpoint_lem t (a1 ∷ a2 ∷ a3 ∷ a4 ∷ []) false = refl
  on_endpoint_lem t (a1 ∷ a2 ∷ a3 ∷ a4 ∷ []) true = refl
  on_endpoint_lem t (a1 ∷ a2 ∷ a3 ∷ a4 ∷ a5 ∷ more) false = refl
  on_endpoint_lem t (a1 ∷ a2 ∷ a3 ∷ a4 ∷ a5 ∷ more) true =
      let body = a1 ∷ a2 ∷ a3 ∷ a4 ∷ a5 ∷ more in
      let long : leb 7 (2 + length body) ≡ true = ground arith in
      rw
        (
          on_endpoint,
          long,
          at-render t body 0,
          at-render t body 1,
          at-render t body 2,
          at-render t body 3,
          at-render t body 4,
        )
        refl

  on_descriptor_lem :
      (d : Descriptor) (b : Bool)
      → on_descriptor (front ++ (render d ++ rest)) (length front) (2 + length d.body) d.dtype b
        ≡ some (visit d b)
  unfolding on_descriptor visit
  on_descriptor_lem d b =
      ground (arith, on_interface_lem d.dtype d.body b, on_endpoint_lem d.dtype d.body b)

  -- A round on the bytes of a descriptor does what the descriptor says.
  round-render :
      (d : Descriptor) (b : Bool)
      → round (front ++ (render d ++ rest)) (length front) b
        ≡ act (2 + length d.body) (some (visit d b))
  unfolding round with_length with_type at render
  round-render d b =
      let bytes = front ++ (render d ++ rest) in
      let size : length bytes ≡ length front + (2 + length d.body + length rest) = omega (
        arith,
        length-append front (render d ++ rest),
        length-append d.body rest,
        length-append (render d) rest,
      ) in
      let enough : leb (length front + 2) (length bytes) ≡ true = ground (arith, size) in
      let whole : ((2 + length d.body == 0)
            || ltb (length bytes) (length front + (2 + length d.body)))
          ≡ false =
        ground (arith, size) in
      let e0 : length front + 0 ≡ length front = omega arith in
      let first : at bytes (length front) ≡ some (2 + length d.body) =
        ap (get_elem? bytes) (sym e0) ∙ get_elem?-append front (render d ++ rest) 0 in
      let second : at bytes (length front + 1) ≡ some d.dtype =
        get_elem?-append front (render d ++ rest) 1 in
      rw (round, enough, first, whole, second)
        (ap (act (2 + length d.body)) (on_descriptor_lem d b))

-- Each descriptor has two bytes at least.
length-render_all : (ds : List Descriptor) → length ds ≤ length (render_all ds)
unfolding render_all render
length-render_all [] = omega arith
length-render_all (d ∷ ds) =
    omega (arith, length-render_all ds, length-append d.body (render_all ds))

-- Behind the last descriptor the search ends.
round-end :
    (front : List ℕ) (b : Bool)
    → round (front ++ []) (length front) b ≡ Round.ends (Parsed.returns none)
unfolding round
round-end front b =
    let short : leb (length front + 2) (length (front ++ [])) ≡ false =
      ground (arith, length-append front []) in
    rw short refl

length-render :
    (front : List ℕ) (d : Descriptor)
    → length (front ++ render d) ≡ length front + (2 + length d.body)
unfolding render
length-render front d = omega (arith, length-append front (render d))

-- The search behind `front`, with enough rounds for every descriptor
scan-pick :
    (ds : List Descriptor) (n : ℕ) (front : List ℕ) (b : Bool)
    → length ds < n
    → scan n (front ++ render_all ds) (length front) b ≡ Parsed.returns (pick b ds)
unfolding scan render_all pick act
scan-pick ds zero front b h = absurd (omega (arith, h))
scan-pick [] (suc n) front b h = rw (scan, round-end front b) refl
scan-pick (d ∷ ds) (suc n) front b h =
    rw (scan, round-render front (render_all ds) d b)
      (onwards (λ in_hid. scan-pick ds n (front ++ render d) in_hid (omega (arith, h))) (visit d b))
  where
    onwards :
        ((in_hid : Bool)
          → scan n ((front ++ render d) ++ render_all ds) (length (front ++ render d)) in_hid
            ≡ Parsed.returns (pick in_hid ds))
        → (v : Found)
        → ◌≡◌ {A = Parsed}
            (elim (act (2 + length d.body) (some v)) [
              | ends r ↦ r
              | moves b_len in_hid' ↦
                  scan n (front ++ (render d ++ render_all ds)) (length front + b_len) in_hid'
            ])
            (Parsed.returns (elim v [
              | endpoint addr maxp interval ↦ some (addr, maxp, interval)
              | go in_hid' ↦ pick in_hid' ds
            ]))
    onwards rest (Found.endpoint addr maxp interval) = refl
    onwards rest (Found.go in_hid) =
        rw (sym (length-render front d), sym (append_assoc front (render d) (render_all ds)))
          (rest in_hid)

-- On the bytes of a list of descriptors the search returns the endpoint that the list tells.
pub parse_hid_keyboard_endpoint-render_all :
    (ds : List Descriptor)
    → parse_hid_keyboard_endpoint (render_all ds) ≡ Parsed.returns (pick false ds)
unfolding parse_hid_keyboard_endpoint
parse_hid_keyboard_endpoint-render_all ds =
    scan-pick ds (suc (length (render_all ds))) [] false (omega (arith, length-render_all ds))
