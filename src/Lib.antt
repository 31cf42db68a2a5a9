-- ===== src/Lib.antt =====
-- The netCDF plugins of iRODS (https://github.com/irods/irods_netcdf): clients and server hand requests
-- for netCDF files to the netCDF library, and a collection of files that follow each other in time is
-- handled as one file, a time series. The development models the parts of the program that calculate:
-- what is asked of the library and of other servers, in which order, and what becomes of the answers.
--
-- The parts, the file that models each, and the code that it translates:
--
--   Base         Boolean tests, lists, integers, decimal numbers and texts that the modules share.
--   Status       the int status of every function, as a result: a value, an error code, or a fault, which
--                is what C leaves undefined (a null pointer, an index out of an array, a division by 0).
--   NcType       the data types: getDataTypeSize (api/lib/rcNcGetVarsByType.cpp), getNcTypeStr
--                (api/lib/rcNcInq.cpp), parseStrToNcType
--                (microservices/netcdf/include/netcdfParseUtilities.hpp).
--   Inq          the records of an inquiry (api/include/ncInq.hpp). Inq.Query: ncInq, inqAtt and getAttValue
--                (api/lib/rcNcInq.cpp). Inq.File: what a file holds, and a library that reads it, which
--                Inq.Whole (all items) and Inq.Single (one item) measure the answers against.
--   Vars         reading a part of a variable: getSizeForGetVars (api/lib/rcNcGetVarsByType.cpp) and
--                _rsNcGetVarsByType (api/lib/_rsNcGetVarsByType.cpp). Vars.Size: the length of the output;
--                Vars.Buffer: what the library writes and the buffer for it.
--   Subset       subsets of the dimensions of a variable: getSingleNcVarData, resolveSubsetVar
--                (api/lib/rcNcInq.cpp), ncSubsetVar (microservices/netcdf/src/msiNcSubsetVar.cpp).
--                Subset.Bounds: the ranges lie in their dimensions; Subset.Resolve and Subset.Resolved:
--                from the texts of a subset to positions; Subset.Parse: parseNcSubset, parseSubsetStr and
--                parseVarStrForSubset (api/lib/rcNcInq.cpp), the subsets in a text.
--   Transfer     getAndPutVarToFile (api/lib/rcNcInq.cpp), the copy of a variable in parts.
--                Transfer.Chunks: the loop; Transfer.Copy: the whole function.
--   Dump         dumpNcInqOutToNcFile, ncFormatToCmode and closeAndRmNeFile (api/lib/rcNcInq.cpp): a whole
--                file, as the calls that are made on it. Dump.Calls and Dump.Closed: what is left of the
--                file.
--                Dump.Part: dumpSubsetToFile, a file of part of the variables. Dump.PartClosed.
--   Close        rsNcClose with ncCloseColl, closeAggrFiles and ncCloseDataObj (api/src/rsNcClose.cpp), on the
--                table of descriptors. Close.Freed: what ncCloseDataObj frees; Close.Object: what rsNcClose
--                frees for an object or a group.
--   Open         _rsNcOpenDataObj (api/lib/rcNcOpen.cpp), on the same table. Open.Balanced: what is taken and
--                freed by opening and closing.
--   Open.Group   rsNcOpenGroup (api/src/rsNcOpenGroup.cpp); Open.Group.Root: the descriptor of the root.
--   Open.Create  rsNcCreate (api/src/rsNcCreate.cpp).
--   Server       requests to open files: rsNcInqId, rsNcInqWithId, rsNcInqGrps, rsNcInq and rsNcGetVarsByType
--                with their helpers (api/src/rsNcInqId.cpp, rsNcInqWithId.cpp, rsNcInqGrps.cpp, rsNcInq.cpp and
--                rsNcGetVarsByType.cpp there, api/lib/_rsNcInqDataObj.cpp). Server.Library: the calls of the
--                library; Server.Entries: the entries; Server.Reach: the ways of a request over servers, zones
--                and collections; Server.Runs, Server.Kinds and Server.Answers: what is done on these ways,
--                and what the client gets.
--   Dict         dictionary_t and its JSON (api/lib/ooiCi.cpp). Dict.Attr: dictSetAttr, dictGetAttr and
--                dictDelAttr on the arrays; Dict.Entries: a dictionary as its entries; Dict.Represents: what the
--                arrays represent, and Dict.Refines: the three functions on them. Dict.Json:
--                jsonPackDictionary, jsonUnpackDict, jsonUnpackArray and the jsonUnpackOoiResp calls;
--                Dict.Packed: packing and unpacking; Dict.Last: the status of unpacking. Dict.Array: arraySet and the ids in an array.
--                Dict.Service: jsonPackOoiServReq and rsOoiGenServReq with its callback
--                (api/src/rsOoiGenServReq.cpp).
--   Rule         the microservices that look into the answer of an inquiry
--                (microservices/netcdf/src/msiNcGet...InInqOut.cpp).
--                Rule.Dims: names and lengths of dimensions; Rule.Atts: the attribute that a value is taken of;
--                Rule.Arrays: elements of arrays (msiNcGetElementInArray.cpp and others there);
--                Rule.Calls: msiNcOpen, msiNcCreate, msiNcOpenGroup and msiNcClose; Rule.Inquire:
--                msiNcInqId, msiNcInqWithId, msiNcInq and msiNcInqGrps. parseMspForPosInt is a parameter.
--   Oper         ncUtil, ncOperDataObjUtil and ncOperCollUtil (api/lib/ncUtil.cpp). Oper.Command: all
--                paths of a command; Oper.Visits: the visits of a tree of collections.
--   Ncattr       ncattrUtil and its utilities (api/lib/ncattrUtil.cpp), which register, remove and query the
--                attributes of objects; the collections are gone through as in Oper. Ncattr.Query:
--                queryDataObjForAUV and queryAUVForDataObj; Ncattr.Pages: what is asked for and printed;
--                Ncattr.Names: the names of --attr; Ncattr.Statuses: when the command gives 0.
--   Agg          the description of a time series (ncAggInfo_t): addNcAggElement,
--                sumAggElementArraylen (api/lib/rcNcGetAggInfo.cpp). Agg.Shift, Agg.Insert and Agg.Order:
--                the insertion into the array is an insertion into a sorted list. Agg.Path: the names
--                of the files (getAggBasePath, getNextAggEleObjPath). Agg.Collect: rsNcGetAggInfo
--                (api/src/rsNcGetAggInfo.cpp), which builds the description from a collection.
--   Element      the time range of one file: rsNcGetAggElement (api/src/rsNcGetAggElement.cpp), with getNcIntVar
--                and timeToAsci (api/lib/rcNcInq.cpp). Element.Range: what it says of the times of the file;
--                Element.Closed: files and descriptors behind it.
--   Arch         the archive of a time series: getTimeInxForArch and archPartialTimeSeries
--                (api/src/rsNcArchTimeSeries.cpp), getTimeStepSize and ncValueToInt (api/lib/rcNcInq.cpp).
--                Arch.Start: the first new time step; Arch.Files: the files; Arch.Server:
--                _rsNcArchTimeSeries; Arch.Extend: search and files together.
--   Coll         reading a variable of a time series: _rsNcGetVarsByTypeForColl
--                (api/src/rsNcGetVarsByType.cpp), openAggrFile (api/lib/rcNcOpen.cpp), getTimeInxInVar
--                (api/lib/rcNcInq.cpp). Coll.Request: the request around the loop over the files;
--                Coll.Rows, Coll.Step and Coll.Gather: the loop; Coll.Whole: the whole function.
--   Tests        the theorems at concrete inputs, and runs.
--
-- How they interact: rsNcGetAggInfo (Agg.Collect) keeps the description in the order of time, of which the
-- files are read in that order (Coll) and after which the archive goes on (Arch); both, and the subsets and
-- the copies (Subset, Transfer), read variables through _rsNcGetVarsByType (Vars).
--
-- Conventions. Numbers are native; an int of the source that may wrap around is its bit pattern, modulo
-- 2 ^ 32, and a size_t is modulo 2 ^ 64. Arrays are lists, with the count that the source keeps beside them
-- as their length, except the array of ncAggInfo_t, of which the allocated part matters. Texts are lists of
-- character codes, and are not cut at the size of their buffers but where a module says so. A function that returns 0 or an error code
-- returns `ok` or `err`; messages to the log are left out.
--
-- Fuel. Some loops are not on the structure of a list. getAndPutVarToFile has lcount[0] + 1, since each turn
-- copies one row at least; getTimeInxForArch has one more than the times, since each turn reads one at least;
-- archPartialTimeSeries has one more than the time steps, since each file takes one at least. The two loops of
-- queryAUVForDataObj, and that of queryDataObjForAUV, are given fuel for the elements of a text and the pages of
-- an answer. Where fuel runs out the model says `fault`; the theorems below on the first
-- three of these loops, and on those of queryAUVForDataObj, show that it does not.
--
-- Parameters. The netCDF library (nc_get_vars, nc_put_vars), the calls of the iRODS server (opening,
-- closing, creating and registering data objects, reading collections), splitPathByKey, the local time, and
-- doubles are arguments of the definitions that use them. Hypotheses on them are named in the theorems.
--
-- Not modelled: the packing of structures, connections, the printing of headers and variables (and of the
-- attributes of an object), the parsing of command lines, the other microservices that call the API, the
-- registration of attributes on the server, the file of a description (readAggInfo), HDF5 and the tests of the
-- API. The field plugin_data of a descriptor (Close) is what any_cast<openedAggInfo_t> gives of its plugin
-- data. Since _rsNcOpenColl stores a pointer there, the program gets nothing from any of these casts: the
-- branches of Close and Server for collections, and the loop of Coll, are translated as they are written, and
-- nothing is claimed of a descriptor on which a cast gives a structure. openAggrFile and the reading of Coll
-- are given the structure as an argument (Coll.Request has the cast in front). Sums of the lengths of files (rodsLong_t) are taken to stay below 2 ^ 63.
pub mod Base
pub mod Status
pub mod NcType
pub mod Vars
pub mod Inq
pub mod Subset
pub mod Transfer
pub mod Dump
pub mod Close
pub mod Open
pub mod Server
pub mod Agg
pub mod Arch
pub mod Coll
pub mod Element
pub mod Dict
pub mod Rule
pub mod Oper
pub mod Ncattr
pub mod Tests
