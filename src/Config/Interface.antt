-- ===== src/Config/Interface.antt =====
-- Parse reads an [Interface] section back as Serialize wrote it (internal/config/parser.go).
use wireguide_plus.Common.{ℕ, suc, ◌≡◌, refl, ap, [], ◌++◌, Bool, true, false, all}
use wireguide_plus.Common.Text.{Text, codes, is_space, trim}
use wireguide_plus.Config.Model.{InterfaceConfig, empty_interface}
use wireguide_plus.Config.Words.{to_lower, lines, drop_cr}
use wireguide_plus.Config.Parser.{
  State, InterfaceKey, interface_key, set_interface, parse_interface_key, put_key, scan, parse_line,
  start,
}
use wireguide_plus.Config.Printer.{
  entry, text_entry, list_entry, number_entry, script_entries, extra_entries, print_interface,
}
use wireguide_plus.Config.Lines.{is_clean, is_key}
use wireguide_plus.Config.Items.{is_item}
use wireguide_plus.Config.Fields.{Reads, ◌▸◌, at_interface, Sets, interface_entry}
use wireguide_plus.Config.Steps.{
  IsCount, is_script, are_extras, text_step, list_step, number_step, script_step, extra_steps,
}

abbrev is_unknown : InterfaceKey → Bool
is_unknown InterfaceKey.unknown = true
is_unknown _ = false

unfoldable pub unknown_interface_key : (ℕ → ℕ) → Text → Bool
unfolding to_lower interface_key
unknown_interface_key lower_rune k = is_unknown (interface_key (to_lower lower_rune k))

-- An interface whose values stand each on a line of their own and can be read back: clean texts,
-- clean list elements, numbers that are not negative, scripts of clean lines, and extra keys that
-- are no keys of the parser.
pub record IsPrintableInterface (lower_rune : ℕ → ℕ) (i : InterfaceConfig) : Type 0 where
  pub private_key : is_clean i.private_key ≡ true
  pub address : all is_item i.address ≡ true
  pub dns : all is_item i.dns ≡ true
  pub mtu : IsCount i.mtu
  pub listen_port : IsCount i.listen_port
  pub table : is_clean i.table ≡ true
  pub fw_mark : is_clean i.fw_mark ≡ true
  pub pre_up : is_script i.pre_up ≡ true
  pub post_up : is_script i.post_up ≡ true
  pub pre_down : is_script i.pre_down ≡ true
  pub post_down : is_script i.post_down ≡ true
  pub jc : IsCount i.jc
  pub jmin : IsCount i.jmin
  pub jmax : IsCount i.jmax
  pub s1 : IsCount i.s1
  pub s2 : IsCount i.s2
  pub s3 : IsCount i.s3
  pub s4 : IsCount i.s4
  pub h1 : is_clean i.h1 ≡ true
  pub h2 : is_clean i.h2 ≡ true
  pub h3 : is_clean i.h3 ≡ true
  pub h4 : is_clean i.h4 ≡ true
  pub extra_keys : are_extras (unknown_interface_key lower_rune) [] i.extra_keys ≡ true

-- What the proofs about a key that is written out unfold.
unfoldable pub reading : Unit {0}
unfolding is_key interface_key to_lower set_interface parse_interface_key is_space
reading = tt

is_unknown-eq : (k : InterfaceKey) → is_unknown k ≡ true → k ≡ InterfaceKey.unknown
is_unknown-eq InterfaceKey.unknown h = refl
is_unknown-eq k h = cc

unknown-Sets :
    (f : ℕ → ℕ) (k v : Text) (i : InterfaceConfig)
    → unknown_interface_key f k ≡ true
    → Sets f k v i (record i { extra_keys = put_key k v i.extra_keys })
unfolding unknown_interface_key parse_interface_key set_interface
unknown-Sets f k v i h n =
    ap (λ key. set_interface key n k v i) (is_unknown-eq (interface_key (to_lower f k)) h)

header_interface :
    (f : ℕ → ℕ) → Reads f (codes "[Interface]\n") start (at_interface empty_interface)
unfolding scan parse_line lines drop_cr trim is_space to_lower
header_interface f = record { read = λ n rest. (suc n, refl) }

module _ (f : ℕ → ℕ) (i : InterfaceConfig) (p : IsPrintableInterface f i) where
  -- The interface with its first fields read.
  abbrev with_net : InterfaceConfig
  with_net = record empty_interface {
    private_key = i.private_key;
    address = i.address;
    dns = i.dns;
    mtu = i.mtu;
    listen_port = i.listen_port;
    table = i.table;
    fw_mark = i.fw_mark;
  }

  read_net :
      (t : Text) (s : State)
      → Reads f t (at_interface with_net) s
      → Reads f
          (entry (codes "PrivateKey") i.private_key
            ++ (list_entry (codes "Address") i.address
                ++ (list_entry (codes "DNS") i.dns
                    ++ (number_entry (codes "MTU") i.mtu
                        ++ (number_entry (codes "ListenPort") i.listen_port
                            ++ (text_entry (codes "Table") i.table
                                ++ (text_entry (codes "FwMark") i.fw_mark ++ t)))))))
          (at_interface empty_interface)
          s
  unfolding reading
  read_net t s h =
      let i1 = record empty_interface { private_key = i.private_key } in
      let i2 = record i1 { address = i.address } in
      let i3 = record i2 { dns = i.dns } in
      let i4 = record i3 { mtu = i.mtu } in
      let i5 = record i4 { listen_port = i.listen_port } in
      let i6 = record i5 { table = i.table } in
      interface_entry f (codes "PrivateKey") i.private_key empty_interface i1 refl p.private_key
        (λ n. refl)
      ▸ list_step f (codes "Address") i.address (λ x. record i1 { address = x }) refl p.address
          (λ w n. refl)
      ▸ list_step f (codes "DNS") i.dns (λ x. record i2 { dns = x }) refl p.dns (λ w n. refl)
      ▸ number_step f (codes "MTU") i.mtu (λ x. record i3 { mtu = x }) refl p.mtu (λ w n. refl)
      ▸ number_step f (codes "ListenPort") i.listen_port (λ x. record i4 { listen_port = x }) refl
          p.listen_port (λ w n. refl)
      ▸ text_step f (codes "Table") i.table (λ x. record i5 { table = x }) refl p.table
          (λ w n. refl)
      ▸ text_step f (codes "FwMark") i.fw_mark (λ x. record i6 { fw_mark = x }) refl p.fw_mark
          (λ w n. refl)
      ▸ h

  abbrev with_scripts : InterfaceConfig
  with_scripts = record with_net {
    pre_up = i.pre_up;
    post_up = i.post_up;
    pre_down = i.pre_down;
    post_down = i.post_down;
  }

  read_scripts :
      (t : Text) (s : State)
      → Reads f t (at_interface with_scripts) s
      → Reads f
          (script_entries (codes "PreUp") i.pre_up
            ++ (script_entries (codes "PostUp") i.post_up
                ++ (script_entries (codes "PreDown") i.pre_down
                    ++ (script_entries (codes "PostDown") i.post_down ++ t))))
          (at_interface with_net)
          s
  unfolding reading
  read_scripts t s h =
      let i1 = record with_net { pre_up = i.pre_up } in
      let i2 = record i1 { post_up = i.post_up } in
      let i3 = record i2 { pre_down = i.pre_down } in
      script_step f (codes "PreUp") i.pre_up (λ x. record with_net { pre_up = x }) refl p.pre_up
        (λ e w n. refl)
      ▸ script_step f (codes "PostUp") i.post_up (λ x. record i1 { post_up = x }) refl p.post_up
          (λ e w n. refl)
      ▸ script_step f (codes "PreDown") i.pre_down (λ x. record i2 { pre_down = x }) refl p.pre_down
          (λ e w n. refl)
      ▸ script_step f (codes "PostDown") i.post_down (λ x. record i3 { post_down = x }) refl
          p.post_down (λ e w n. refl)
      ▸ h

  abbrev with_numbers : InterfaceConfig
  with_numbers = record with_scripts {
    jc = i.jc;
    jmin = i.jmin;
    jmax = i.jmax;
    s1 = i.s1;
    s2 = i.s2;
    s3 = i.s3;
    s4 = i.s4;
  }

  read_numbers :
      (t : Text) (s : State)
      → Reads f t (at_interface with_numbers) s
      → Reads f
          (number_entry (codes "Jc") i.jc
            ++ (number_entry (codes "Jmin") i.jmin
                ++ (number_entry (codes "Jmax") i.jmax
                    ++ (number_entry (codes "S1") i.s1
                        ++ (number_entry (codes "S2") i.s2
                            ++ (number_entry (codes "S3") i.s3
                                ++ (number_entry (codes "S4") i.s4 ++ t)))))))
          (at_interface with_scripts)
          s
  unfolding reading
  read_numbers t s h =
      let i1 = record with_scripts { jc = i.jc } in
      let i2 = record i1 { jmin = i.jmin } in
      let i3 = record i2 { jmax = i.jmax } in
      let i4 = record i3 { s1 = i.s1 } in
      let i5 = record i4 { s2 = i.s2 } in
      let i6 = record i5 { s3 = i.s3 } in
      number_step f (codes "Jc") i.jc (λ x. record with_scripts { jc = x }) refl p.jc (λ w n. refl)
      ▸ number_step f (codes "Jmin") i.jmin (λ x. record i1 { jmin = x }) refl p.jmin (λ w n. refl)
      ▸ number_step f (codes "Jmax") i.jmax (λ x. record i2 { jmax = x }) refl p.jmax (λ w n. refl)
      ▸ number_step f (codes "S1") i.s1 (λ x. record i3 { s1 = x }) refl p.s1 (λ w n. refl)
      ▸ number_step f (codes "S2") i.s2 (λ x. record i4 { s2 = x }) refl p.s2 (λ w n. refl)
      ▸ number_step f (codes "S3") i.s3 (λ x. record i5 { s3 = x }) refl p.s3 (λ w n. refl)
      ▸ number_step f (codes "S4") i.s4 (λ x. record i6 { s4 = x }) refl p.s4 (λ w n. refl)
      ▸ h

  abbrev with_headers : InterfaceConfig
  with_headers = record with_numbers { h1 = i.h1; h2 = i.h2; h3 = i.h3; h4 = i.h4 }

  read_headers :
      (t : Text) (s : State)
      → Reads f t (at_interface with_headers) s
      → Reads f
          (text_entry (codes "H1") i.h1
            ++ (text_entry (codes "H2") i.h2
                ++ (text_entry (codes "H3") i.h3 ++ (text_entry (codes "H4") i.h4 ++ t))))
          (at_interface with_numbers)
          s
  unfolding reading
  read_headers t s h =
      let i1 = record with_numbers { h1 = i.h1 } in
      let i2 = record i1 { h2 = i.h2 } in
      let i3 = record i2 { h3 = i.h3 } in
      text_step f (codes "H1") i.h1 (λ x. record with_numbers { h1 = x }) refl p.h1 (λ w n. refl)
      ▸ text_step f (codes "H2") i.h2 (λ x. record i1 { h2 = x }) refl p.h2 (λ w n. refl)
      ▸ text_step f (codes "H3") i.h3 (λ x. record i2 { h3 = x }) refl p.h3 (λ w n. refl)
      ▸ text_step f (codes "H4") i.h4 (λ x. record i3 { h4 = x }) refl p.h4 (λ w n. refl)
      ▸ h

  read_extra : Reads f (extra_entries i.extra_keys) (at_interface with_headers) (at_interface i)
  read_extra =
      extra_steps f (unknown_interface_key f)
        (λ e. at_interface (record with_headers { extra_keys = e })) [] i.extra_keys
        (λ k v e hk hv u.
          interface_entry f k v (record with_headers { extra_keys = e })
            (record with_headers { extra_keys = put_key k v e }) hk hv
            (unknown-Sets f k v (record with_headers { extra_keys = e }) u))
        p.extra_keys

  -- A printed interface is read back.
  pub read_interface :
      (n : ℕ) (rest : Text)
      → (m : ℕ) × (scan f n (lines (print_interface i ++ rest)) start
          ≡ scan f m (lines rest) (at_interface i))
  unfolding print_interface
  read_interface n rest =
      (header_interface f
          ▸ read_net _ _ (read_scripts _ _ (read_numbers _ _ (read_headers _ _ read_extra)))).read
        n rest
