-- ===== src/Wire/Algorithms.antt =====
-- crates/tatami_ssh_wire/src/algorithms.rs: the algorithm, marker and service names.
use tatami_ssh.Prelude.{Bytes, codes}

abbrev pub curve25519_sha256 : Bytes
curve25519_sha256 = codes "curve25519-sha256"

abbrev pub ssh_ed25519 : Bytes
ssh_ed25519 = codes "ssh-ed25519"

abbrev pub ssh_rsa : Bytes
ssh_rsa = codes "ssh-rsa"

abbrev pub rsa_sha2_256 : Bytes
rsa_sha2_256 = codes "rsa-sha2-256"

abbrev pub rsa_sha2_512 : Bytes
rsa_sha2_512 = codes "rsa-sha2-512"

abbrev pub ecdsa_sha2_nistp256 : Bytes
ecdsa_sha2_nistp256 = codes "ecdsa-sha2-nistp256"

abbrev pub nistp256 : Bytes
nistp256 = codes "nistp256"

abbrev pub aes128_gcm_openssh : Bytes
aes128_gcm_openssh = codes "aes128-gcm@openssh.com"

abbrev pub hmac_sha2_256 : Bytes
hmac_sha2_256 = codes "hmac-sha2-256"

abbrev pub none : Bytes
none = codes "none"

abbrev pub ext_info_c : Bytes
ext_info_c = codes "ext-info-c"

abbrev pub ext_info_s : Bytes
ext_info_s = codes "ext-info-s"

abbrev pub kex_strict_c_openssh : Bytes
kex_strict_c_openssh = codes "kex-strict-c-v00@openssh.com"

abbrev pub kex_strict_s_openssh : Bytes
kex_strict_s_openssh = codes "kex-strict-s-v00@openssh.com"

abbrev pub kex_strict_c : Bytes
kex_strict_c = codes "kex-strict-c"

abbrev pub kex_strict_s : Bytes
kex_strict_s = codes "kex-strict-s"

abbrev pub ssh_userauth : Bytes
ssh_userauth = codes "ssh-userauth"

abbrev pub ssh_connection : Bytes
ssh_connection = codes "ssh-connection"
