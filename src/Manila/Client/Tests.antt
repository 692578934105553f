-- ===== src/Manila/Client/Tests.antt =====
-- Messages of conflicts.
use arca_storage.Manila.Client.Resources.{
  extract_resource_id, resource_in, part_behind, extract_resource_id-volume,
}
use arca_storage.Base.{◌≡◌, refl, none, some, list_eqb, codes, has_text, starts_with, split}
use arca_storage.Manila.{svm_exists, network_conflict}
use arca_storage.Manila.Client.{
  conflict_error, response_error, is_ip_conflict, has_words, word_behind,
}

address_in_use :
    response_error 409 (codes "/v1/svms") (codes "IP address 192.168.0.10 is already in use")
    ≡ network_conflict
unfolding response_error conflict_error is_ip_conflict has_words word_behind has_text starts_with
    split
address_in_use = refl

name_taken : response_error 409 (codes "/v1/svms") (codes "SVM web already exists") ≡ svm_exists
unfolding response_error conflict_error is_ip_conflict has_words word_behind has_text starts_with
    split
name_taken = refl

extract_resource_id-volume_example :
    (extract_resource_id (codes "/v1/volumes/share-123") (codes "GET") none ≡ codes "share-123")
    × (extract_resource_id (codes "/v1/volumes/share-123/clone") (codes "GET") none
        ≡ codes "share-123")
    × (extract_resource_id (codes "/v1/volumes") (codes "POST") (some (codes "share-123"))
        ≡ codes "share-123")
unfolding list_eqb
extract_resource_id-volume_example =
    extract_resource_id-volume (codes "share-123") (codes "clone") (codes "GET") none refl refl refl
      refl

capacity :
    extract_resource_id (codes "/v1/svms/svm-name/capacity") (codes "GET") none ≡ codes "svm-name"
unfolding extract_resource_id resource_in part_behind split list_eqb
capacity = refl
