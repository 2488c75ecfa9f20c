-- ===== src/Xhci/Memory/Calls.antt =====
-- The calls that main.rs makes of xhci.rs, in any order: what they write.
use mon_os.Base.{ℕ, ◌<◌, ◌^◌, ◌≡◌, sym, subst, List, [], ◌∷◌, All, arith}
use mon_os.Xhci.Machine.{M, Host, Run}
use mon_os.Xhci.Init.{init_controller}
use mon_os.Xhci.Invariant.{Ends}
use mon_os.Xhci.Invariant.Operations.{Operation, call, perform, perform_all}
use mon_os.Xhci.Memory.{Domain, IsSound}
use mon_os.Xhci.Memory.Rules.{Leaves, Writes, Always, bind-Gives, pure-Writes}
use mon_os.Xhci.Memory.Events.{poll_events-Writes}
use mon_os.Xhci.Memory.Ports.{report_ports-Writes, ensure_first_port_enabled-Writes}
use mon_os.Xhci.Memory.Commands.{
  enable_slot-Writes, address_device-Writes, configure_interrupt_in_endpoint-Writes,
}
use mon_os.Xhci.Memory.Transfers.{
  get_device_descriptor-Writes, get_configuration_descriptor_header-Writes,
  get_configuration_descriptor-Writes, set_configuration-Writes, request_hid_report_once-Writes,
  start_hid_polling-Writes,
}
use mon_os.Xhci.Memory.Init.{init_controller-Writes}

-- The controller is the one of the domain, slots are u8, and the lengths that size a block are u16.
unfoldable pub IsTyped : Domain → Operation → Type 0
IsTyped d (Operation.init i) = i ≡ d.info
IsTyped d (Operation.address slot) = slot < 256
IsTyped d (Operation.device_descriptor slot) = slot < 256
IsTyped d (Operation.config_header slot) = slot < 256
IsTyped d (Operation.config_descriptor slot total) = (slot < 256) × (total < 2 ^ 16)
IsTyped d (Operation.set_config_value slot v) = slot < 256
IsTyped d (Operation.request_report slot addr maxp) = (slot < 256) × (maxp < 2 ^ 16)
IsTyped d (Operation.start_polling slot addr maxp) = (slot < 256) × (maxp < 2 ^ 16)
IsTyped d op = Unit {0}

module _ {d : Domain} where
  call-Writes : {A : Type 0} (n : ℕ) (m : M A) → Writes d n m → Writes d n (call m)
  unfolding call
  call-Writes n m safe = bind-Gives n Always m _ safe (λ a. pure-Writes n tt)

  perform-Writes : (n : ℕ) (op : Operation) → IsTyped d op → Writes d n (perform op)
  unfolding perform IsTyped
  perform-Writes n (Operation.init i) typed =
      subst (λ j. Writes d n (call (init_controller j))) (sym typed)
        (call-Writes n _ (init_controller-Writes n))
  perform-Writes n Operation.report typed = report_ports-Writes n
  perform-Writes n Operation.poll typed = call-Writes n _ (poll_events-Writes n)
  perform-Writes n Operation.ensure_enabled typed =
      call-Writes n _ (ensure_first_port_enabled-Writes n)
  perform-Writes n Operation.enable typed = call-Writes n _ (enable_slot-Writes n)
  perform-Writes n (Operation.address slot) typed =
      call-Writes n _ (address_device-Writes n slot typed)
  perform-Writes n (Operation.device_descriptor slot) typed =
      call-Writes n _ (get_device_descriptor-Writes n slot typed)
  perform-Writes n (Operation.config_header slot) typed =
      call-Writes n _ (get_configuration_descriptor_header-Writes n slot typed)
  perform-Writes n (Operation.config_descriptor slot total) typed =
      call-Writes n _ (get_configuration_descriptor-Writes n slot total typed.0 typed.1)
  perform-Writes n (Operation.set_config_value slot v) typed =
      call-Writes n _ (set_configuration-Writes n slot v typed)
  perform-Writes n (Operation.configure_endpoint slot addr maxp interval) typed =
      call-Writes n _ (configure_interrupt_in_endpoint-Writes n slot addr maxp interval)
  perform-Writes n (Operation.request_report slot addr maxp) typed =
      call-Writes n _ (request_hid_report_once-Writes n slot addr maxp typed.0 typed.1)
  perform-Writes n (Operation.start_polling slot addr maxp) typed =
      call-Writes n _ (start_hid_polling-Writes n slot addr maxp typed.0 typed.1)

  perform_all-Writes :
      (n : ℕ) (ops : List Operation) → All (IsTyped d) ops → Writes d n (perform_all ops)
  unfolding perform_all
  perform_all-Writes n [] typed = pure-Writes n tt
  perform_all-Writes n (op ∷ ops) typed =
      bind-Gives n Always (perform op) _ (perform-Writes n op typed.0)
        (λ done. perform_all-Writes n ops typed.1)

-- From a host that is sound, calls of the driver that all end, for one controller and with slots of 8 bits
-- and lengths of 16, leave a host that is sound. Sound means: every write in the trace went to a register of
-- that controller (the operational ones with the ports that it has, the first interrupter, a doorbell) or
-- into memory between NEXT_FREE at the start and NEXT_FREE now, and the state, if there is one, is of that
-- controller, valid, and has its rings and its table of contexts in such memory.
pub perform_all-IsSound :
    (d : Domain) (ops : List Operation) (h h' : Host)
    → All (IsTyped d) ops
    → IsSound d h
    → perform_all ops h ≡ Run.ok tt h'
    → IsSound d h'
unfolding Ends Leaves
perform_all-IsSound d ops h h' typed sound ended =
    (subst (Leaves d h Always) ended
      ((perform_all-Writes h.pmm.next_free ops typed).at h (omega arith) sound)).0
