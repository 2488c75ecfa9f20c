-- ===== src/Xhci/Memory/Contexts.antt =====
-- The input contexts of the commands of xhci.rs: what filling them writes.
use mon_os.Base.{ℕ, ◌+◌, ◌*◌, ◌^◌, ◌≤◌, arith, bit_or, u32, ◌<<<◌}
use mon_os.Pmm.{page_size}
use mon_os.Xhci.Machine.{XhciInfo, write32}
use mon_os.Xhci.Regs.{context_size}
use mon_os.Xhci.Commands.{
  max_packet, speed_of_first_port, write_dequeue, fill_address_context, fill_endpoint_context,
  endpoint_id_from_addr,
}
use mon_os.Xhci.Memory.{Domain, IsMemory}
use mon_os.Xhci.Memory.Rules.{
  Writes, Always, then-Gives, bind-Gives, pure-Writes, if-Gives, some_or-Gives,
}
use mon_os.Xhci.Memory.Accesses.{write_memory}
use mon_os.Xhci.Memory.Regs.{portsc-Writes}
use mon_os.Xhci.Memory.Rings.{part}
use mon_os.Xhci.Memory.Ports.{with_info-Writes, find_first_connected_port-Writes}

pub context_size-bounds : (i : XhciInfo) → (32 ≤ context_size i) × (context_size i ≤ 64)
unfolding context_size
context_size-bounds i = ground arith

pub endpoint_block-bounds :
    (i : XhciInfo) (addr : ℕ)
    → context_size i * (2 + endpoint_id_from_addr addr) + page_size ≤ 2 ^ 64
unfolding context_size endpoint_id_from_addr
endpoint_block-bounds i addr = ground (arith, context_size-bounds i)

module _ {d : Domain} where
  speed_of_first_port-Writes : (n : ℕ) → Writes d n speed_of_first_port
  unfolding speed_of_first_port
  speed_of_first_port-Writes n =
      bind-Gives n Always _ _ (find_first_connected_port-Writes n) (λ found.
        some_or-Gives n Always found 0 _ (pure-Writes n _) (λ index.
          with_info-Writes n _ _ (λ i n' le e.
            if-Gives n' Always _ _ _ (pure-Writes n' _)
              (bind-Gives n' Always _ _ (portsc-Writes n' i index) (λ sc. pure-Writes n' _)))))

  -- Four bytes inside a block
  word :
      (n phys size a v : ℕ)
      → IsMemory d n phys size
      → phys ≤ a
      → a + 4 ≤ phys + size
      → Writes d n (write32 a v)
  word n phys size a v m low high = write_memory n a 4 _ (part n phys size a 4 m low high)

  write_dequeue-Writes :
      (n phys size ctx ring : ℕ)
      → IsMemory d n phys size
      → phys ≤ ctx
      → ctx + 16 ≤ phys + size
      → Writes d n (write_dequeue ctx ring)
  unfolding write_dequeue
  write_dequeue-Writes n phys size ctx ring m low high =
      then-Gives n Always _ _ (word n phys size (ctx + 8) _ m (omega arith) (omega arith))
        (word n phys size (ctx + 12) _ m (omega arith) (omega arith))

  pub fill_address_context-Writes :
      (n size ic ring : ℕ)
      → 32 ≤ size
      → IsMemory d n ic (size * 3)
      → Writes d n (fill_address_context size ic ring)
  unfolding fill_address_context
  fill_address_context-Writes n size ic ring large m =
      then-Gives n Always _ _
        (word n ic (size * 3) (ic + 4) 3 m (omega arith) (omega (arith, large)))
        (then-Gives n Always _ _
          (word n ic (size * 3) (ic + size) 0 m (omega arith) (omega (arith, large)))
          (bind-Gives n Always _ _ (speed_of_first_port-Writes n) (λ speed.
            then-Gives n Always _ _
              (word n ic (size * 3) (ic + size + 4) (speed <<< 20) m (omega arith)
                (omega (arith, large)))
              (then-Gives n Always _ _
                (word n ic (size * 3) (ic + size + 8) (1 <<< 27) m (omega arith)
                  (omega (arith, large)))
                (then-Gives n Always _ _
                  (word n ic (size * 3) (ic + size + size + 4) (max_packet speed <<< 16) m
                    (omega arith) (omega (arith, large)))
                  (write_dequeue-Writes n ic (size * 3) (ic + size + size) ring m (omega arith)
                    (omega (arith, large))))))))

  pub fill_endpoint_context-Writes :
      (n size ic ep maxp ring : ℕ)
      → 32 ≤ size
      → IsMemory d n ic (size * (2 + ep))
      → Writes d n (fill_endpoint_context size ic ep maxp ring)
  unfolding fill_endpoint_context
  fill_endpoint_context-Writes n size ic ep maxp ring large m =
      then-Gives n Always _ _
        (block_word (ic + 4) (bit_or 1 (u32 (1 <<< ep))) (omega arith) (omega (arith, large)))
        (then-Gives n Always _ _
          (block_word (ic + size + 8) (ep <<< 27) (omega arith) (omega (arith, large)))
          (then-Gives n Always _ _
            (block_word (ic + size + size * ep + 4) (maxp <<< 16) (omega arith)
              (omega (arith, large)))
            (write_dequeue-Writes n ic (size * (2 + ep)) (ic + size + size * ep) ring m
              (omega arith) (omega (arith, large)))))
    where
      block_word : (a v : ℕ) → ic ≤ a → a + 4 ≤ ic + size * (2 + ep) → Writes d n (write32 a v)
      block_word a v low high = word n ic (size * (2 + ep)) a v m low high
