-- ===== src/Ctable/Subport.antt =====
-- ctable.c and endpoint.c: the subport that a client makes, and the one that it reads back from the
-- answers.
use hwdb_opendpi.Prelude.{ℕ, ◌%◌, ◌^◌, ◌<◌, ◌≡◌, ◌↔◌, sym, ◌∙◌, arith}
use hwdb_opendpi.Endpoint.{ByteOrder, SockAddr, endpoint_complete}
use hwdb_opendpi.Payload.{cp_complete}
use hwdb_opendpi.Ctable.{ctable_new_subport}

fits_word :
    (ctr pid : ℕ)
    → ((ctable_new_subport ctr pid).1 % 2 ^ 32 ≡ (ctable_new_subport ctr pid).1)
      ↔ (pid % 2 ^ 16 < 2 ^ 15)
unfolding ctable_new_subport
fits_word ctr pid = (λ h. ground arith, λ h. ground arith)

-- The subport that a client gives its endpoint comes back in the header of an answer, and the
-- client's reader makes the same endpoint of it, exactly when bit 15 of the process id is 0: with
-- that bit set the 64-bit subport is sign-extended, and the 32 bits of the header lose that.
pub subport_echo :
    ⦃net : ByteOrder⦄
    → (ctr pid cmd sn fn nfs : ℕ) (addr : SockAddr)
    → let sp = (ctable_new_subport ctr pid).1 in
      ((endpoint_complete addr (net.ntohl (cp_complete sp cmd sn fn nfs).subport)).subport ≡ sp)
      ↔ (pid % 2 ^ 16 < 2 ^ 15)
unfolding endpoint_complete cp_complete
subport_echo ⦃net⦄ ctr pid cmd sn fn nfs addr =
    let sp = (ctable_new_subport ctr pid).1 in
    let law = fits_word ctr pid in
    let back : net.htonl (net.ntohl (sp % 2 ^ 32)) ≡ sp % 2 ^ 32 =
      net.htonl-ntohl (sp % 2 ^ 32) ∙ omega arith in
    (λ h. law.0 (sym back ∙ h), λ h. back ∙ law.1 h)
