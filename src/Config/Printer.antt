-- ===== src/Config/Printer.antt =====
-- Serialize of internal/config/parser.go.
use wireguide_plus.Common.{
  zero, suc, List, [], ◌∷◌, ◌++◌, Option, some, none, Bool, true, false, if◌then◌else◌, is_empty,
}
use wireguide_plus.Common.Int.{ℤ, pos, negsuc}
use wireguide_plus.Common.Text.{Text, codes}
use wireguide_plus.Config.Model.{InterfaceConfig, PeerConfig, WireGuardConfig, ExtraKeys}
use wireguide_plus.Config.Words.{split, join, itoa}
use wireguide_plus.Common.{suc}

-- key + " = " + value + "\n"
unfoldable pub entry : Text → Text → Text
entry k v = k ++ (codes " = " ++ (v ++ (10 ∷ [])))

-- if value != ""
unfoldable pub text_entry : Text → Text → Text
unfolding entry
text_entry k v = if is_empty v then [] else entry k v

-- if len(values) > 0
unfoldable pub list_entry : Text → List Text → Text
unfolding entry join
list_entry k vs = if is_empty vs then [] else entry k (join (codes ", ") vs)

abbrev pub is_positive : ℤ → Bool
is_positive (pos zero) = false
is_positive (pos (suc n)) = true
is_positive (negsuc n) = false

-- if value > 0
unfoldable pub number_entry : Text → ℤ → Text
unfolding entry itoa
number_entry k z = if is_positive z then entry k (itoa z) else []

-- One line for each part.
unfoldable pub part_entries : Text → List Text → Text
unfolding entry
part_entries k [] = []
part_entries k (p ∷ ps) = entry k p ++ part_entries k ps

-- writeScriptLines
unfoldable pub script_entries : Text → Text → Text
unfolding part_entries split
script_entries k v = if is_empty v then [] else part_entries k (split 0 v)

-- range ExtraKeys: the order of a Go map is any; here it is that of the list.
unfoldable pub extra_entries : ExtraKeys → Text
unfolding entry
extra_entries [] = []
extra_entries ((k, v) ∷ m) = entry k v ++ extra_entries m

unfoldable pub print_interface : InterfaceConfig → Text
unfolding text_entry list_entry number_entry script_entries extra_entries
print_interface i =
    codes "[Interface]\n"
    ++ (entry (codes "PrivateKey") i.private_key
        ++ (list_entry (codes "Address") i.address
            ++ (list_entry (codes "DNS") i.dns
                ++ (number_entry (codes "MTU") i.mtu
                    ++ (number_entry (codes "ListenPort") i.listen_port
                        ++ (text_entry (codes "Table") i.table
                            ++ (text_entry (codes "FwMark") i.fw_mark
                                ++ (script_entries (codes "PreUp") i.pre_up
                                    ++ (script_entries (codes "PostUp") i.post_up
                                        ++ (script_entries (codes "PreDown") i.pre_down
                                            ++ (script_entries (codes "PostDown") i.post_down
                                                ++ (number_entry (codes "Jc") i.jc
                                                    ++ (number_entry (codes "Jmin") i.jmin
                                                        ++ (number_entry (codes "Jmax") i.jmax
                                                            ++ (number_entry (codes "S1") i.s1
                                                            ++ (number_entry (codes "S2") i.s2
                                                            ++ (number_entry (codes "S3") i.s3
                                                            ++ (number_entry (codes "S4") i.s4
                                                            ++ (text_entry (codes "H1") i.h1
                                                            ++ (text_entry (codes "H2") i.h2
                                                            ++ (text_entry (codes "H3") i.h3
                                                            ++ (text_entry (codes "H4") i.h4
                                                            ++ extra_entries
                                                            i.extra_keys))))))))))))))))))))))

unfoldable pub keepalive_entry : Option ℤ → Text
unfolding entry itoa
keepalive_entry none = []
keepalive_entry (some z) = entry (codes "PersistentKeepalive") (itoa z)

unfoldable pub print_peer : PeerConfig → Text
unfolding text_entry list_entry keepalive_entry extra_entries
print_peer p =
    codes "\n[Peer]\n"
    ++ (entry (codes "PublicKey") p.public_key
        ++ (text_entry (codes "PresharedKey") p.preshared_key
            ++ (text_entry (codes "Endpoint") p.endpoint
                ++ (list_entry (codes "AllowedIPs") p.allowed_ips
                    ++ (keepalive_entry p.persistent_keepalive ++ extra_entries p.extra_keys)))))

unfoldable pub print_peers : List PeerConfig → Text
unfolding print_peer
print_peers [] = []
print_peers (p ∷ ps) = print_peer p ++ print_peers ps

-- Serialize
unfoldable pub serialize : WireGuardConfig → Text
unfolding print_interface print_peers
serialize c = print_interface c.interface ++ print_peers c.peers
