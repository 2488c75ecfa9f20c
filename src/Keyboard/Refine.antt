-- ===== src/Keyboard/Refine.antt =====
-- The key buffer is a bounded queue.
use mon_os.Base.{
  ℕ, zero, suc, ◌+◌, ◌-◌, ◌%◌, ◌<◌, ◌≡◌, ◌≢◌, refl, ap, ap₂, arith, List, [], ◌∷◌, ◌++◌, ◌==◌,
  length, get_or, set, length-set, get_or-set_self, get_or-set_ne, Option, Bool-cases, inl, inr,
  ◌∙◌,
}
use mathlib.Core.Option
use mon_os.Keyboard.{KeyRing, kbuf_cap, kbuf_push, poll_char}
use mon_os.Keyboard.Queue
use mon_os.Keyboard.Queue.{Queue}

pub record IsValid (r : KeyRing) : Type 0 where
  pub storage : length r.kbuf ≡ kbuf_cap
  pub head_in : r.khead < kbuf_cap
  pub tail_in : r.ktail < kbuf_cap

-- The `n` bytes from index `t` on, going round.
abbrev pub window : List ℕ → ℕ → ℕ → Queue
window buf t zero = []
window buf t (suc n) = get_or buf (t % kbuf_cap) 0 ∷ window buf (t + 1) n

abbrev pub count : KeyRing → ℕ
count r = (r.khead + kbuf_cap - r.ktail) % kbuf_cap

-- The keys that wait, oldest first.
abbrev pub contents : KeyRing → Queue
contents r = window r.kbuf r.ktail (count r)

length-window : (buf : List ℕ) (t n : ℕ) → length (window buf t n) ≡ n
length-window buf t zero = refl
length-window buf t (suc n) = ap suc (length-window buf (t + 1) n)

window-snoc :
    (buf : List ℕ) (t n : ℕ)
    → window buf t (suc n) ≡ window buf t n ++ (get_or buf ((t + n) % kbuf_cap) 0 ∷ [])
window-snoc buf t zero = ap (λ i. get_or buf (i % kbuf_cap) 0 ∷ []) (omega arith)
window-snoc buf t (suc n) =
    ap (λ q. get_or buf (t % kbuf_cap) 0 ∷ q) (rw (← shift) (window-snoc buf (t + 1) n))
  where
    shift : t + 1 + n ≡ t + suc n
    shift = omega arith

-- A write at an index that the window does not reach.
window-set :
    (buf : List ℕ) (i b t n : ℕ)
    → ((j : ℕ) → j < n → i ≢ (t + j) % kbuf_cap)
    → window (set buf i b) t n ≡ window buf t n
window-set buf i b t zero apart = refl
window-set buf i b t (suc n) apart =
    ap₂ ◌∷◌ (get_or-set_ne buf i (t % kbuf_cap) b 0 (λ e. apart 0 (omega arith) (omega (arith, e))))
      (window-set buf i b (t + 1) n (λ j h e. apart (suc j) (omega arith) (omega (arith, e))))

pub length-contents : (r : KeyRing) → length (contents r) ≡ count r
length-contents r = length-window r.kbuf r.ktail (count r)

pub kbuf_push-IsValid : (b : ℕ) {r : KeyRing} → IsValid r → IsValid (kbuf_push b r)
unfolding kbuf_push
kbuf_push-IsValid b {r} v = ground (arith, length-set r.kbuf r.khead b)

pub poll_char-IsValid : {r : KeyRing} → IsValid r → IsValid (poll_char r).1
unfolding poll_char
poll_char-IsValid v = ground arith

-- Storing a byte at the head and moving the head on appends the byte.
contents-store :
    (b : ℕ) (r : KeyRing)
    → IsValid r
    → (r.khead + 1) % kbuf_cap ≢ r.ktail
    → contents (record r { kbuf = set r.kbuf r.khead b; khead = (r.khead + 1) % kbuf_cap })
      ≡ contents r ++ (b ∷ [])
contents-store b r v room = rw more (
    window-snoc (set r.kbuf r.khead b) r.ktail (count r)
    ∙ ap₂ (λ q x. q ++ (x ∷ [])) (window-set r.kbuf r.khead b r.ktail (count r) apart) last)
  where
    more :
        count (record r { kbuf = set r.kbuf r.khead b; khead = (r.khead + 1) % kbuf_cap })
        ≡ suc (count r)
    more = omega (arith, v.head_in, v.tail_in)

    apart : (j : ℕ) → j < count r → r.khead ≢ (r.ktail + j) % kbuf_cap
    apart j h = omega (arith, v.head_in, v.tail_in)

    head : (r.ktail + count r) % kbuf_cap ≡ r.khead
    head = omega (arith, v.head_in, v.tail_in)

    last : get_or (set r.kbuf r.khead b) ((r.ktail + count r) % kbuf_cap) 0 ≡ b
    last = rw head (get_or-set_self r.kbuf r.khead b 0 (omega (arith, v.storage, v.head_in)))

-- `kbuf_push` is `Queue.push`: it appends the byte, or drops it when 255 keys wait.
pub kbuf_push_refines :
    (b : ℕ) (r : KeyRing) → IsValid r → contents (kbuf_push b r) ≡ Queue.push b (contents r)
unfolding kbuf_push Queue.push
kbuf_push_refines b r v = elim (Bool-cases ((r.khead + 1) % kbuf_cap == r.ktail)) [
  | inl full ↦ ground (arith, length-contents r)
  | inr room ↦ ground (arith, length-contents r, contents-store b r v)
]

window_pos :
    (buf : List ℕ) (t n : ℕ)
    → 0 < n
    → window buf t n ≡ get_or buf (t % kbuf_cap) 0 ∷ window buf (t + 1) (n - 1)
window_pos buf t zero h = absurd (omega arith)
window_pos buf t (suc n) h =
    ap (λ k. get_or buf (t % kbuf_cap) 0 ∷ window buf (t + 1) k) (omega arith)

-- The window depends on its start only modulo the size.
window-cong :
    (buf : List ℕ) (s t n : ℕ) → s % kbuf_cap ≡ t % kbuf_cap → window buf s n ≡ window buf t n
window-cong buf s t zero e = refl
window-cong buf s t (suc n) e =
    ap₂ (λ i q. get_or buf i 0 ∷ q) e (window-cong buf (s + 1) (t + 1) n (omega (arith, e)))

pub contents-empty : (r : KeyRing) → IsValid r → r.ktail ≡ r.khead → contents r ≡ []
contents-empty r v e = let none_left : count r ≡ 0 = omega (arith, v.tail_in) in rw none_left

pub contents-taken :
    (r : KeyRing)
    → IsValid r
    → r.ktail ≢ r.khead
    → contents r
      ≡ get_or r.kbuf r.ktail 0 ∷ contents (record r { ktail = (r.ktail + 1) % kbuf_cap })
contents-taken r v e =
    window_pos r.kbuf r.ktail (count r) (omega (arith, v.head_in, v.tail_in))
    ∙ ap₂ (λ i q. get_or r.kbuf i 0 ∷ q) (omega (arith, v.tail_in))
        (window-cong r.kbuf (r.ktail + 1) ((r.ktail + 1) % kbuf_cap) (count r - 1) (omega arith)
          ∙ ap (window r.kbuf ((r.ktail + 1) % kbuf_cap)) (omega (arith, v.head_in, v.tail_in)))

-- A load of KBUF gives `f` of the byte that was stored.
pub record Sees (f : ℕ → ℕ) (r : KeyRing) : Type 0 where
  pub loads : (kbuf : List ℕ) (i : ℕ) → r.seen kbuf i ≡ f (get_or kbuf i 0)

pub kbuf_push-Sees : (f : ℕ → ℕ) (b : ℕ) {r : KeyRing} → Sees f r → Sees f (kbuf_push b r)
unfolding kbuf_push
kbuf_push-Sees f b {r} s = elim (Bool-cases ((r.khead + 1) % kbuf_cap == r.ktail)) [
  | inl full ↦ rw full s
  | inr room ↦ rw room (record { loads = s.loads })
]

pub poll_char-Sees : (f : ℕ → ℕ) {r : KeyRing} → Sees f r → Sees f (poll_char r).1
unfolding poll_char
poll_char-Sees f {r} s = elim (Bool-cases (r.ktail == r.khead)) [
  | inl empty ↦ rw empty s
  | inr waiting ↦ rw waiting (record { loads = s.loads })
]

-- An answer of the queue as the loads of KBUF give it
abbrev pub given : (ℕ → ℕ) → Option ℕ × Queue → Option ℕ × Queue
given f p = (Option.map f p.0, p.1)

-- `poll_char` is `Queue.pop`, but for what the load makes of the key: it takes the oldest key, or none from
-- an empty buffer.
pub poll_char_seen :
    (f : ℕ → ℕ) (r : KeyRing)
    → Sees f r
    → IsValid r
    → let (out, r') = poll_char r in (out, contents r') ≡ given f (Queue.pop (contents r))
unfolding poll_char Queue.pop
poll_char_seen f r s v = elim (Bool-cases (r.ktail == r.khead)) [
  | inl empty ↦ rw empty (rw (contents-empty r v (ground arith)))
  | inr waiting ↦ rw waiting (rw (contents-taken r v (ground arith), s.loads r.kbuf r.ktail))
]

-- KBUF is an ordinary array.
abbrev pub IsArray : KeyRing → Type 0
IsArray r = Sees (λ b. b) r

pub poll_char_refines :
    (r : KeyRing)
    → IsArray r
    → IsValid r
    → let (out, r') = poll_char r in (out, contents r') ≡ Queue.pop (contents r)
unfolding Queue.pop
poll_char_refines r s v = poll_char_seen (λ b. b) r s v ∙ same (contents r)
  where
    same : (q : Queue) → given (λ b. b) (Queue.pop q) ≡ Queue.pop q
    same [] = refl
    same (b ∷ q) = refl
