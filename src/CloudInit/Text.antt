-- ===== src/CloudInit/Text.antt =====
-- The text of the template of util/cloudinit/cloudinit.go.
pub mod Injective
use cluster_api_provider_clo.World.Types.{NetworkConnection, IpScope}
use cluster_api_provider_clo.Base.{ℕ, String, if◌then◌else◌, suc, ◌<>◌, ◌==◌, ◌/◌, ltb, ◌%◌, zero}

-- A decimal digit, and a number in decimal.
abbrev digit : ℕ → String
digit n =
    if n == 0
    then "0"
    else if n == 1
    then "1"
    else if n == 2
    then "2"
    else if n == 3
    then "3"
    else if n == 4
    then "4"
    else if n == 5
    then "5"
    else if n == 6
    then "6"
    else if n == 7
    then "7"
    else if n == 8
    then "8"
    else "9"

decimal : ℕ → ℕ → String
decimal zero n = ""
decimal (suc fuel) n =
    let more = decimal fuel (n / 10) in if ltb n 10 then digit n else more <> digit (n % 10)

-- A number has no more digits than its value plus one.
unfoldable pub itoa : ℕ → String
unfolding decimal
itoa n = decimal (suc n) n

unfoldable pub render_head : String → String → String
render_head name id =
    "#cloud-config\nlocal-hostname: "
    <> (name <> ("\ninstance-id: " <> (id <> "\nnetwork:\n  version: 2\n  ethernets:")))

unfoldable pub render_ethernet : NetworkConnection → IpScope → String
unfolding itoa
render_ethernet c scope =
    "\n    eth"
    <> (itoa c.network_connection_index
        <> (":\n      match:\n        macaddress: \""
            <> (c.mac_address
                <> ("\"\n      addresses:\n      - "
                    <> (c.ip_address
                        <> ("/"
                            <> (scope.subnet_prefix_length
                                <> ("\n      gateway4: "
                                    <> (scope.gateway
                                        <> ("\n      nameservers:\n        addresses:\n        - "
                                            <> scope.dns1))))))))))
