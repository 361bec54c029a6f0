-- ===== src/Bench/FifoDriver/Moves.antt =====
-- Beats on their way: those held between the driver and the monitor, and those the monitor gets.
use fpga_network_processing.Base.{
  List, [], ap, append-nil, append_assoc, refl, sym, ◌++◌, ◌∙◌, ◌∷◌, ◌≡◌,
}
use fpga_network_processing.Monitor.Scoreboard.{PacketMon}
use fpga_network_processing.Monitor.Verdict.{Beat, receive, receive-append}

-- From beats `c` held and monitor `m` to `c'` and `m'`, with the beats `new` added: what the monitor
-- got and what is held now are what was held before and the new ones, in order.
pub record Moves (c : List Beat) (m : PacketMon) (c' : List Beat) (m' : PacketMon) (new : List Beat)
    : Type 0 where
  pub moved : List Beat
  pub got : m' ≡ receive moved m
  pub balance : moved ++ c' ≡ c ++ new

module _ {c : List Beat} {m : PacketMon} where
  pub Moves-none : Moves c m c m []
  unfolding receive
  Moves-none = record { moved = []; got = refl; balance = sym (append-nil c) }

  pub Moves-in : (b : Beat) → Moves c m (c ++ b ∷ []) m (b ∷ [])
  unfolding receive
  Moves-in b = record { moved = []; got = refl; balance = refl }

  pub Moves-trans :
      {c' c'' : List Beat} {m' m'' : PacketMon} {new new' : List Beat}
      → Moves c m c' m' new
      → Moves c' m' c'' m'' new'
      → Moves c m c'' m'' (new ++ new')
  Moves-trans {c'} {c''} {m'} {m''} {new} {new'} p q = record {
    moved = p.moved ++ q.moved;
    got = q.got ∙ ap (receive q.moved) p.got ∙ sym (receive-append p.moved q.moved m);
    balance =
        append_assoc p.moved q.moved c''
        ∙ ap (λ t. p.moved ++ t) q.balance
        ∙ sym (append_assoc p.moved c' new')
        ∙ ap (λ t. t ++ new') p.balance
        ∙ append_assoc c new new';
  }

  -- What the monitor will have received in the end.
  pub receive-Moves :
      {c' : List Beat} {m' : PacketMon} {new : List Beat}
      → Moves c m c' m' new
      → receive c' m' ≡ receive new (receive c m)
  receive-Moves {c'} {m'} {new} p =
      ap (receive c') p.got
      ∙ sym (receive-append p.moved c' m)
      ∙ ap (λ t. receive t m) p.balance
      ∙ receive-append c new m

pub Moves-out :
    (b : Beat) (c : List Beat) (m m' : PacketMon)
    → m' ≡ receive (b ∷ []) m
    → Moves (b ∷ c) m c m' []
Moves-out b c m m' e = record { moved = b ∷ []; got = e; balance = sym (append-nil (b ∷ c)) }
