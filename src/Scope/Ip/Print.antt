-- ===== src/Scope/Ip/Print.antt =====
-- Python's `str` of an address and of a network, in the form of its version 3.12, and the round trip
-- of IPv4 addresses.
use recon_platform.Prelude.{
  ℕ, zero, suc, ◌+◌, ◌-◌, ◌/◌, ◌%◌, ◌^◌, ltb, ◌==◌, List, [], ◌∷◌, ◌++◌, take, drop, if◌then◌else◌,
}
use recon_platform.Prelude.Text.{Text}
use recon_platform.Scope.Ip.{v4, v6, Address, Network}

abbrev digit : ℕ → ℕ
digit d = if ltb d 10 then d + b'0' else d + 87

-- The digits of a number below `base ^ (suc room)`, without leading zeros.
unfoldable pub digits : ℕ → ℕ → ℕ → Text
digits base zero n = digit n ∷ []
digits base (suc room) n =
    let high = digits base room (n / base) in
    if ltb n base then digit n ∷ [] else high ++ digit (n % base) ∷ []

unfoldable pub print_octet : ℕ → Text
unfolding digits
print_octet n = digits 10 2 n

unfoldable pub print_v4 : ℕ → Text
unfolding print_octet
print_v4 n =
    print_octet (n / 256 / 256 / 256)
    ++ (b'.' ∷ print_octet (n / 256 / 256 % 256)
        ++ (b'.' ∷ print_octet (n / 256 % 256) ++ (b'.' ∷ print_octet (n % 256))))

hextets : ℕ → ℕ → List ℕ
hextets zero n = []
hextets (suc k) n = (n / 65536 ^ k % 65536) ∷ hextets k n

-- The start and the length of the first longest run of zeros, as `_compress_hextets` finds them.
longest_run : ℕ → ℕ → ℕ × ℕ → List ℕ → ℕ × ℕ
longest_run index run best [] = best
longest_run index run best (h ∷ hs) =
    let run' = if h == 0 then run + 1 else 0 in
    longest_run (index + 1) run' (if ltb best.1 run' then (index + 1 - run', run') else best) hs

join_hextets : List ℕ → Text
unfolding digits
join_hextets [] = []
join_hextets (h ∷ []) = digits 16 3 h
join_hextets (h ∷ g ∷ hs) = digits 16 3 h ++ b':' ∷ join_hextets (g ∷ hs)

unfoldable pub print_v6 : ℕ → Text
unfolding hextets longest_run join_hextets
print_v6 n =
    let hs = hextets 8 n in
    let (start, run) = longest_run 0 0 (0, 0) hs in
    if ltb 1 run
    then join_hextets (take start hs) ++ b':' ∷ b':' ∷ join_hextets (drop (start + run) hs)
    else join_hextets hs

-- `str(address)`, without a zone.
unfoldable pub print_address : Address → Text
unfolding print_v4 print_v6
print_address a = elim a.version [ v4 ↦ print_v4 a.number | v6 ↦ print_v6 a.number ]

-- `str(network)`
unfoldable pub print_network : Network → Text
unfolding print_address digits
print_network net = print_address net.first ++ b'/' ∷ digits 10 2 net.prefixlen
