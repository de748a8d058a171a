-- ===== src/Config/RoundTrip.antt =====
-- Parse reads back what Serialize wrote (internal/config/parser.go).
use mathlib.Core.List.{append-nil}
use wireguide_plus.Common.{
  ℕ, ◌≤◌, ◌≡◌, refl, sym, ap, ◌∙◌, [], Bool, true, false, ltb, ◌==◌, if◌then◌else◌, is_empty, any,
  All, arith, Bool-cases, inl, inr,
}
use wireguide_plus.Config.Model.{WireGuardConfig, Protocol, empty_config, is_amnezia_wg}
use wireguide_plus.Config.Words.{lines, byte_length}
use wireguide_plus.Config.Parser.{
  parse, scan, start, finish, strip_bom, fills_buffer, max_config_size, ok, Section,
}
use wireguide_plus.Config.Printer.{serialize, print_peers}
use wireguide_plus.Config.Fields.{at_interface}
use wireguide_plus.Config.Interface.{IsPrintableInterface, read_interface}
use wireguide_plus.Config.Peers.{IsPrintablePeer, read_peers}

-- What a .conf file keeps of a configuration: the two kinds of sections. The protocol is derived,
-- and the name and what is injected at run time are not in the file.
abbrev pub stored : WireGuardConfig → WireGuardConfig
stored c = record empty_config {
  interface = c.interface;
  peers = c.peers;
  protocol = if is_amnezia_wg c.interface then Protocol.amneziawg else Protocol.unset;
}

strip_bom-serialize : (c : WireGuardConfig) → strip_bom (serialize c) ≡ serialize c
unfolding serialize
strip_bom-serialize c = refl

fills_buffer-serialize : (c : WireGuardConfig) → fills_buffer (serialize c) ≡ false
fills_buffer-serialize c = elim (Bool-cases (byte_length (serialize c) == max_config_size)) [
  | inl e ↦ rw e (rw (has_line c) refl)
  | inr e ↦ rw e refl
]
  where
    has_line : (c : WireGuardConfig) → any (λ d. d == 10) (serialize c) ≡ true
    has_line c = unfold serialize in refl

finish-stored :
    (c : WireGuardConfig)
    → is_empty c.interface.private_key ≡ false
    → finish (record empty_config { interface = c.interface; peers = c.peers }) ≡ ok (stored c)
unfolding finish
finish-stored c h = rw h (split-protocol c (is_amnezia_wg c.interface))
  where
    split-protocol :
        (c : WireGuardConfig) (b : Bool)
        → (if b
            then ok (record empty_config {
              interface = c.interface;
              peers = c.peers;
              protocol = Protocol.amneziawg;
            })
            else ok (record empty_config { interface = c.interface; peers = c.peers }))
          ≡ ok (record empty_config {
            interface = c.interface;
            peers = c.peers;
            protocol = if b then Protocol.amneziawg else Protocol.unset;
          })
    split-protocol c true = refl
    split-protocol c false = refl

scan-serialize :
    (f : ℕ → ℕ) (c : WireGuardConfig)
    → IsPrintableInterface f c.interface
    → All (IsPrintablePeer f) c.peers
    → (t : Section) × (scan f 0 (lines (serialize c)) start
        ≡ ok (record {
          section = t;
          config = record empty_config { interface = c.interface; peers = c.peers };
        }))
unfolding serialize scan lines
scan-serialize f c i p =
    let one = read_interface f c.interface i 0 (print_peers c.peers) in
    let two = read_peers f c.interface [] c.peers Section.interface p one.0 [] in
    (
      two.1,
      one.1
          ∙ ap (λ l. scan f one.0 (lines l) (at_interface c.interface))
              (sym (append-nil (print_peers c.peers)))
          ∙ two.2,
    )

-- A configuration whose values can stand in a .conf file, with a private key and not more than
-- 1 MiB of text, comes back from Serialize and Parse with the same interface and the same peers,
-- and with the protocol that its interface shows.
pub parse-serialize :
    (lower_rune : ℕ → ℕ) (c : WireGuardConfig)
    → IsPrintableInterface lower_rune c.interface
    → All (IsPrintablePeer lower_rune) c.peers
    → is_empty c.interface.private_key ≡ false
    → byte_length (serialize c) ≤ max_config_size
    → parse lower_rune (serialize c) ≡ ok (stored c)
unfolding parse
parse-serialize f c i p key size =
    let fits : ltb max_config_size (byte_length (serialize c)) ≡ false = ground arith in
    let s = scan-serialize f c i p in
    rw fits
      (rw (strip_bom-serialize c) (rw (fills_buffer-serialize c) (rw s.1 (finish-stored c key))))
