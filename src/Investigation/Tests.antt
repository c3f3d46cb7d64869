-- ===== src/Investigation/Tests.antt =====
-- A short investigation and the theorem at this input (apps/api/app/investigation.py).
use the_evil_repository.Prelude.{List, String, [], keys, map, none, refl, some, ◌∷◌, ◌≡◌}
use the_evil_repository.Protocol.{Host, below, millionths}
use the_evil_repository.Investigation.Store.{
  Evidence, EvidenceEdge, Revision, empty_store, link_evidence, record_evidence, record_hypothesis,
}
use the_evil_repository.Investigation.History.{
  IsConsistent, Recording, edge, empty_store-IsConsistent, evidence_item, hypothesis, record_all,
  record_all-IsConsistent,
}

abbrev plain : Host
plain = record { sha256 = λ s. s; casefold = λ s. s; dumps = λ f. "{}" }

abbrev recordings : List Recording
recordings =
    hypothesis "h1" "the relay drops frames" "proposed" (millionths 300000) none none
    ∷ evidence_item plain "e1" "log" "relay.log" "frames are lost" (millionths 2000000)
    ∷ evidence_item plain "e1" "log" "other.log" "again" (millionths 1)
    ∷ hypothesis "h2" "the clock is wrong" "guessed" (millionths 1) none none
    ∷ hypothesis "h1" "the relay drops frames" "rejected" (below 4) (some "look at the codec") none
    ∷ edge "evidence" "e1" "hypothesis" "h1" "contradicts" (below 2000000) none
    ∷ []

runs : Unit {0}
unfolding record_all record_hypothesis record_evidence link_evidence
runs = tt

-- The second evidence under a key and the unknown status are refused; the second revision stands.
recordings-stored :
    let s = record_all empty_store recordings in
    (keys s.hypotheses ≡ "h1" ∷ [])
    × (map (λ (r : Revision). r.sequence) s.revisions ≡ 1 ∷ 2 ∷ [])
    × (map (λ (r : Revision). r.content.confidence) s.revisions ≡ 300000 ∷ 0 ∷ [])
    × (map (λ (e : String × Evidence). e.1.trust) s.evidence ≡ 1000000 ∷ [])
    × (map (λ (x : EvidenceEdge). x.weight) s.edges ≡ below 999999 ∷ [])
unfolding runs
recordings-stored = (refl, refl, refl, refl, refl)

record_all-IsConsistent_example : IsConsistent (record_all empty_store recordings)
record_all-IsConsistent_example =
    record_all-IsConsistent empty_store recordings empty_store-IsConsistent
