-- ===== src/Tests/Published.antt =====
-- The addresses of published files at concrete inputs.
use udhyam_msme_extractor.Prelude.{String, ◌≡◌, refl, true, some}
use udhyam_msme_extractor.Prelude.Text.{file_name, split_suffix}
use udhyam_msme_extractor.Exec.Triple.{Post}
use udhyam_msme_extractor.Storage.Uri.Address.{IsPath, avoids}
use udhyam_msme_extractor.Storage.Object.{
  publish_batch, publish_compacted_batch, validate_artifact, content_addressed_name,
}
use udhyam_msme_extractor.Storage.Object.Verified.{Any}
use udhyam_msme_extractor.Storage.Object.Published.{
  IsPlain, publish_batch-validate_artifact, publish_compacted_batch-validate_artifact,
}
use udhyam_msme_extractor.Tests.Data.{bucket, lake}
use udhyam_msme_extractor.Tests.Packing.{with_file}

abbrev staged : String
staged = "output/r1/GOA/batches/r1_GOA_0.csv"

lake-IsPlain : IsPlain lake
unfolding avoids
lake-IsPlain = record { bucket = refl; prefix = refl; stripped = refl }

r1-IsPath : IsPath "r1"
unfolding avoids
r1-IsPath = refl

goa-IsPath : IsPath "GOA"
unfolding avoids
goa-IsPath = refl

name-IsPath : IsPath (file_name staged)
unfolding avoids file_name
name-IsPath = refl

compacted-IsPath : IsPath (content_addressed_name bucket lake staged "5e8a")
unfolding avoids file_name content_addressed_name split_suffix
compacted-IsPath = refl

publish_batch-validate_artifact_example :
    Post
      (λ u s'. validate_artifact bucket lake (some u) (some "5e8a") s' ≡ (true, ""))
      (Any bucket lake)
      (publish_batch bucket lake staged "r1" "GOA" 0 "5e8a" with_file)
publish_batch-validate_artifact_example =
    publish_batch-validate_artifact bucket lake staged "r1" "GOA" 0 "5e8a" with_file lake-IsPlain
      r1-IsPath goa-IsPath name-IsPath refl

publish_compacted_batch-validate_artifact_example :
    Post
      (λ u s'. validate_artifact bucket lake (some u) (some "5e8a") s' ≡ (true, ""))
      (Any bucket lake)
      (publish_compacted_batch bucket lake staged "r1" "GOA" 0 "5e8a" with_file)
publish_compacted_batch-validate_artifact_example =
    publish_compacted_batch-validate_artifact bucket lake staged "r1" "GOA" 0 "5e8a" with_file
      lake-IsPlain r1-IsPath goa-IsPath compacted-IsPath refl
