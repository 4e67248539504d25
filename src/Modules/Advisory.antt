-- ===== src/Modules/Advisory.antt =====
-- The decoded answers of the vulnerability service: the types of modules/vuln_lookup/types.go,
-- less the fields that nothing reads. `F` stands for `float64`; what JSON decoding puts into the
-- fields is given.
use recon_sr.Base.{Text, List, Option}
use recon_sr.Modules.Ranges.{Affected}

pub record CveMetadata : Type 0 where
  pub cve_id : Text
  pub state : Text
  pub date_published : Text
  pub date_updated : Text

pub record Description : Type 0 where
  pub lang : Text
  pub value : Text

pub record Reference : Type 0 where
  pub url : Text
  pub name : Text
  pub tags : List Text

pub record ProblemDescription : Type 0 where
  pub cwe_id : Text
  pub description : Text
  pub type : Text

pub record ProblemType : Type 0 where
  pub descriptions : List ProblemDescription

pub record CpeMatch : Type 0 where
  pub criteria : Text

pub record CpeNode : Type 0 where
  pub cpe_match : List CpeMatch

pub record CpeApplicability : Type 0 where
  pub nodes : List CpeNode

pub record SsvcOption : Type 0 where
  pub exploitation : Text
  pub automatable : Text
  pub technical_impact : Text

pub record OtherMetric : Type 0 where
  pub type : Text
  pub date_added : Text
  pub options : List SsvcOption

pub record EpssData : Type 0 where
  pub epss : Text
  pub percentile : Text

pub record NvdWeaknessDesc : Type 0 where
  pub lang : Text
  pub value : Text

pub record NvdWeakness : Type 0 where
  pub description : List NvdWeaknessDesc

pub record UniversalCvss (F : Type 0) : Type 0 where
  pub version : Text
  pub vector_string : Text
  pub base_severity : Text
  pub base_score : F

pub record Metric (F : Type 0) : Type 0 where
  pub other : Option OtherMetric
  pub best_cvss : Option (UniversalCvss F)
  pub best_cvss_version : F

pub record NvdMetrics (F : Type 0) : Type 0 where
  pub best_cvss : Option (UniversalCvss F)
  pub best_cvss_version : F

pub record NvdData (F : Type 0) : Type 0 where
  pub metrics : NvdMetrics F
  pub weaknesses : List NvdWeakness

pub record VulnLookupMeta : Type 0 where
  pub epss : Option EpssData
  pub nvd : Text

pub record Adp (F : Type 0) : Type 0 where
  pub title : Text
  pub metrics : List (Metric F)
  pub problem_types : List ProblemType

pub record Cna (F : Type 0) : Type 0 where
  pub title : Text
  pub descriptions : List Description
  pub metrics : List (Metric F)
  pub problem_types : List ProblemType
  pub affected : List Affected
  pub cpe_applicability : List CpeApplicability
  pub references : List Reference

-- `CIRCLCVEResponse`, with the two fields of its `Containers`.
pub record CveResponse (F : Type 0) : Type 0 where
  pub meta : Option VulnLookupMeta
  pub cve_metadata : CveMetadata
  pub cna : Cna F
  pub adp : List (Adp F)
