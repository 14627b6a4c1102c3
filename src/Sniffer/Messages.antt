-- ===== src/Sniffer/Messages.antt =====
-- `ICMP_CODES` of sniffer.py and the search in it.
use honeypots.Prelude.{ℕ, ◌≡◌, refl, ◌&&◌, String, List, [], ◌∷◌, All, ◌==◌, if◌then◌else◌}
use honeypots.Python.Bytes.{Text, codes}

-- A row of the table: type, code, message.
abbrev pub Entry : Type 0
Entry = ℕ × ℕ × Text

abbrev entry : ℕ → ℕ → String → Entry
entry type_ code message = (type_, code, codes message)

unfoldable pub icmp_codes : List Entry
icmp_codes =
    entry 0 0 "Echo/Ping reply"
    ∷ entry 3 0 "Destination network unreachable"
    ∷ entry 3 1 "Destination host unreachable"
    ∷ entry 3 2 "Destination protocol unreachable"
    ∷ entry 3 3 "Destination port unreachable"
    ∷ entry 3 4 "Fragmentation required"
    ∷ entry 3 5 "Source route failed"
    ∷ entry 3 6 "Destination network unknown"
    ∷ entry 3 7 "Destination host unknown"
    ∷ entry 3 8 "Source host isolated"
    ∷ entry 3 9 "Network administratively prohibited"
    ∷ entry 3 10 "Host administratively prohibited"
    ∷ entry 3 11 "Network unreachable for TOS"
    ∷ entry 3 12 "Host unreachable for TOS"
    ∷ entry 3 13 "Communication administratively prohibited"
    ∷ entry 3 14 "Host Precedence Violation"
    ∷ entry 3 15 "Precedence cutoff in effect"
    ∷ entry 4 0 "Source quench"
    ∷ entry 5 0 "Redirect Datagram for the Network"
    ∷ entry 5 1 "Redirect Datagram for the Host"
    ∷ entry 5 2 "Redirect Datagram for the TOS & network"
    ∷ entry 5 3 "Redirect Datagram for the TOS & host"
    ∷ entry 8 0 "Echo/Ping Request"
    ∷ entry 9 0 "Router advertisement"
    ∷ entry 10 0 "Router discovery/selection/solicitation"
    ∷ entry 11 0 "TTL expired in transit"
    ∷ entry 11 1 "Fragment reassembly time exceeded"
    ∷ entry 12 0 "Pointer indicates the error"
    ∷ entry 12 1 "Missing a required option"
    ∷ entry 12 2 "Bad length"
    ∷ entry 13 0 "Timestamp"
    ∷ entry 14 0 "Timestamp Reply"
    ∷ entry 15 0 "Information Request"
    ∷ entry 16 0 "Information Reply"
    ∷ entry 17 0 "Address Mask Request"
    ∷ entry 18 0 "Address Mask Reply"
    ∷ entry 30 0 "Information Request"
    ∷ []

unfoldable pub find_from : List Entry → ℕ → ℕ → Text
find_from [] type_ code = codes "None"
find_from ((icmp_type, icmp_code, msg_type) ∷ rows) type_ code =
    let rest = find_from rows type_ code in
    if type_ == icmp_type && code == icmp_code then msg_type else rest

unfoldable pub find_icmp : ℕ → ℕ → Text
unfolding find_from icmp_codes
find_icmp = find_from icmp_codes

-- Each row of the table is found under its type and its code: no row hides another one.
pub find_icmp-icmp_codes : All (λ row. find_icmp row.0 row.1 ≡ row.2) icmp_codes
unfolding find_icmp
find_icmp-icmp_codes = (
  refl,
  (
    refl,
    (
      refl,
      (
        refl,
        (
          refl,
          (
            refl,
            (
              refl,
              (
                refl,
                (
                  refl,
                  (
                    refl,
                    (
                      refl,
                      (
                        refl,
                        (
                          refl,
                          (
                            refl,
                            (
                              refl,
                              (
                                refl,
                                (
                                  refl,
                                  (
                                    refl,
                                    (
                                      refl,
                                      (
                                        refl,
                                        (
                                          refl,
                                          (
                                            refl,
                                            (
                                              refl,
                                              (
                                                refl,
                                                (
                                                  refl,
                                                  (
                                                    refl,
                                                    (
                                                      refl,
                                                      (
                                                        refl,
                                                        (
                                                          refl,
                                                          (
                                                            refl,
                                                            (
                                                            refl,
                                                            (
                                                            refl,
                                                            (
                                                            refl,
                                                            (refl, (refl, (refl, (refl, tt)))),
                                                            ),
                                                            ),
                                                            ),
                                                          ),
                                                        ),
                                                      ),
                                                    ),
                                                  ),
                                                ),
                                              ),
                                            ),
                                          ),
                                        ),
                                      ),
                                    ),
                                  ),
                                ),
                              ),
                            ),
                          ),
                        ),
                      ),
                    ),
                  ),
                ),
              ),
            ),
          ),
        ),
      ),
    ),
  ),
)
