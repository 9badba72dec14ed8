-- ===== src/Keys/Examples.antt =====
-- crates/tatami_ssh_keys/src/algorithm.rs: the theorem at a concrete name.
use tatami_ssh.Prelude.{◌≡◌, ◌↔◌, some}
use tatami_ssh.Wire.Algorithms.{ssh_rsa}
use tatami_ssh.Keys.Algorithm.{rsa_sha2_512_scheme, scheme_name, scheme_from_name}
use tatami_ssh.Keys.Algorithm.Names.{scheme_from_name_iff}

scheme_from_name_iff_example :
    (scheme_from_name ssh_rsa ≡ some rsa_sha2_512_scheme)
    ↔ (ssh_rsa ≡ scheme_name rsa_sha2_512_scheme)
scheme_from_name_iff_example = scheme_from_name_iff ssh_rsa rsa_sha2_512_scheme
