-- ===== src/Keyboard/Interleave.antt =====
-- The shell polls while the interrupt handler pushes: the loads and the store of `poll_char` are
-- apart, and any number of pushes may come in between.
use mon_os.Base.{
  ℕ, ◌+◌, ◌%◌, ◌≡◌, ◌≢◌, refl, arith, Option, none, some, List, [], ◌∷◌, ◌==◌, if◌then◌else◌, ◌∙◌,
  ap, map, Bool-cases, inl, inr,
}
use mathlib.Core.Option
use mon_os.Keyboard.{KeyRing, kbuf_cap, kbuf_push, poll_char}
use mon_os.Keyboard.Queue
use mon_os.Keyboard.Queue.{Queue}
use mon_os.Keyboard.Refine.{
  IsValid, contents, kbuf_push-IsValid, poll_char-IsValid, contents-empty, contents-taken,
  kbuf_push_refines, poll_char_seen, given, Sees, kbuf_push-Sees, poll_char-Sees,
}

-- Keys pushed by interrupts, one after the other.
unfoldable pub pushes : List ℕ → KeyRing → KeyRing
pushes [] r = r
pushes (b ∷ bs) r = pushes bs (kbuf_push b r)

-- `poll_char` with the interrupts of `keys` between the loads of `KTAIL` and `KHEAD` and the rest.
unfoldable pub poll_interrupted : List ℕ → KeyRing → Option ℕ × KeyRing
poll_interrupted keys r =
    if r.ktail == r.khead
    then (none, pushes keys r)
    else let r' = pushes keys r in
      (some (r'.seen r'.kbuf r.ktail), record r' { ktail = (r.ktail + 1) % kbuf_cap })

ktail-pushes : (keys : List ℕ) (r : KeyRing) → (pushes keys r).ktail ≡ r.ktail
unfolding pushes kbuf_push
ktail-pushes [] r = refl
ktail-pushes (b ∷ bs) r = ktail-pushes bs (kbuf_push b r) ∙ ground arith

-- A push never makes a waiting buffer look empty.
waits-push :
    (b : ℕ) (r : KeyRing) → r.ktail ≢ r.khead → (kbuf_push b r).ktail ≢ (kbuf_push b r).khead
unfolding kbuf_push
waits-push b r w = ground arith

waits-pushes :
    (keys : List ℕ) (r : KeyRing)
    → r.ktail ≢ r.khead
    → (pushes keys r).ktail ≢ (pushes keys r).khead
unfolding pushes
waits-pushes [] r w = w
waits-pushes (b ∷ bs) r w = waits-pushes bs (kbuf_push b r) (waits-push b r w)

pub pushes-IsValid : (keys : List ℕ) {r : KeyRing} → IsValid r → IsValid (pushes keys r)
unfolding pushes
pushes-IsValid [] v = v
pushes-IsValid (b ∷ bs) v = pushes-IsValid bs (kbuf_push-IsValid b v)

pub pushes-Sees : (f : ℕ → ℕ) (keys : List ℕ) {r : KeyRing} → Sees f r → Sees f (pushes keys r)
unfolding pushes
pushes-Sees f [] s = s
pushes-Sees f (b ∷ bs) s = pushes-Sees f bs (kbuf_push-Sees f b s)

-- The interrupted poll acts as one uninterrupted step: on a waiting buffer it is a poll after the
-- pushes, and on an empty one a poll before them.
poll_linear :
    (keys : List ℕ) (r : KeyRing)
    → poll_interrupted keys r
      ≡ (if r.ktail == r.khead then (none, pushes keys r) else poll_char (pushes keys r))
unfolding poll_interrupted
poll_linear keys r = elim (Bool-cases (r.ktail == r.khead)) [
  | inl empty ↦ rw empty
  | inr waiting ↦
      let w : r.ktail ≢ r.khead = ground arith in
      rw waiting (unfold poll_char in ground (arith, waits-pushes keys r w, ktail-pushes keys r))
]

-- What the two sides do over time: keys come in, or the shell polls while keys come in.
pub data Event : Type 0 where
  keys : List ℕ → Event
  poll : List ℕ → Event

abbrev pub answer : Event → Option ℕ → List (Option ℕ) → List (Option ℕ)
answer (keys ks) out rest = rest
answer (poll ks) out rest = out ∷ rest

unfoldable pub step : Event → KeyRing → Option ℕ × KeyRing
step (keys ks) r = (none, pushes ks r)
step (poll ks) r = poll_interrupted ks r

-- What the polls of a history return.
unfoldable pub run : List Event → KeyRing → List (Option ℕ)
run [] r = []
run (e ∷ es) r = let (out, r') = step e r in answer e out (run es r')

unfoldable pub push_all : List ℕ → Queue → Queue
push_all [] q = q
push_all (b ∷ bs) q = push_all bs (Queue.push b q)

-- The same history on a queue; a poll of an empty queue comes before the keys of its moment, any
-- other poll after them.
unfoldable pub queue_step : Event → Queue → Option ℕ × Queue
queue_step (keys ks) q = (none, push_all ks q)
queue_step (poll ks) [] = (none, push_all ks [])
queue_step (poll ks) (b ∷ q) = Queue.pop (push_all ks (b ∷ q))

unfoldable pub queue_run : List Event → Queue → List (Option ℕ)
queue_run [] q = []
queue_run (e ∷ es) q = let (out, q') = queue_step e q in answer e out (queue_run es q')

pub contents-pushes :
    (ks : List ℕ) (r : KeyRing) → IsValid r → contents (pushes ks r) ≡ push_all ks (contents r)
unfolding pushes push_all
contents-pushes [] r v = refl
contents-pushes (b ∷ bs) r v =
    contents-pushes bs (kbuf_push b r) (kbuf_push-IsValid b v)
    ∙ ap (push_all bs) (kbuf_push_refines b r v)

step-IsValid : (e : Event) {r : KeyRing} → IsValid r → IsValid (step e r).1
unfolding step
step-IsValid (keys ks) v = pushes-IsValid ks v
step-IsValid (poll ks) {r} v = elim (Bool-cases (r.ktail == r.khead)) [
  | inl empty ↦ rw (poll_linear, empty) (pushes-IsValid ks v)
  | inr waiting ↦ rw (poll_linear, waiting) (poll_char-IsValid (pushes-IsValid ks v))
]

queue_step-waiting :
    (ks : List ℕ) (b : ℕ) (q q' : Queue)
    → q ≡ b ∷ q'
    → queue_step (poll ks) q ≡ Queue.pop (push_all ks q)
unfolding queue_step
queue_step-waiting ks b q q' e = rw e

step-Sees : (f : ℕ → ℕ) (e : Event) {r : KeyRing} → Sees f r → Sees f (step e r).1
unfolding step
step-Sees f (keys ks) s = pushes-Sees f ks s
step-Sees f (poll ks) {r} s = elim (Bool-cases (r.ktail == r.khead)) [
  | inl empty ↦ rw (poll_linear, empty) (pushes-Sees f ks s)
  | inr waiting ↦ rw (poll_linear, waiting) (poll_char-Sees f (pushes-Sees f ks s))
]

step_refines :
    (f : ℕ → ℕ) (e : Event) (r : KeyRing)
    → Sees f r
    → IsValid r
    → let (out, r') = step e r in (out, contents r') ≡ given f (queue_step e (contents r))
unfolding step
step_refines f (keys ks) r s v = unfold queue_step in ap (λ q. (none, q)) (contents-pushes ks r v)
step_refines f (poll ks) r s v = elim (Bool-cases (r.ktail == r.khead)) [
  | inl empty ↦
      let e : contents r ≡ [] = contents-empty r v (ground arith) in
      rw (poll_linear, empty, e)
        (unfold queue_step in ap (λ q. (none, q)) (contents-pushes ks r v ∙ ap (push_all ks) e))
  | inr waiting ↦
      let e = contents-taken r v (ground arith) in
      rw (poll_linear, waiting, queue_step-waiting ks _ (contents r) _ e, ← contents-pushes ks r v)
        (poll_char_seen f (pushes ks r) (pushes-Sees f ks s) (pushes-IsValid ks v))
]

map-answer :
    (f : ℕ → ℕ) (e : Event) (out : Option ℕ) (rest : List (Option ℕ))
    → map (Option.map f) (answer e out rest) ≡ answer e (Option.map f out) (map (Option.map f) rest)
map-answer f (keys ks) out rest = refl
map-answer f (poll ks) out rest = refl

-- In a build where a load of KBUF gives `f` of the byte that was stored there, and from a ring of 256
-- bytes with its indices inside, whatever keys the interrupt handler pushes, also in the middle of a
-- poll, the shell reads `f` of what a queue of 255 keys would give: in order, each key once, and only
-- what comes in while 255 keys wait is lost. For a build that keeps KBUF as an array `f` is the identity;
-- for one that folds the loads it is 0, and every key is read as NUL.
pub run_refines :
    (f : ℕ → ℕ) (es : List Event) (r : KeyRing)
    → Sees f r
    → IsValid r
    → run es r ≡ map (Option.map f) (queue_run es (contents r))
unfolding run queue_run
run_refines f [] r s v = refl
run_refines f (e ∷ es) r s v =
    let (out, q) = queue_step e (contents r) in
    let one = step_refines f e r s v in
    rw
      (
        run_refines f es (step e r).1 (step-Sees f e s) (step-IsValid e v),
        map-answer f e out (queue_run es q),
        ap (λ p. p.0) one,
        ap (λ p. p.1) one,
      )
      refl
